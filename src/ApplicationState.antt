-- ===== src/ApplicationState.antt =====
-- scripts/ci/validate-application-state-ownership.py: the check that Git does not overwrite the state
-- that applications own.
pub mod Owned
pub mod Tests
use home_server.Common.{
  ℕ, String, concat, Bool, true, false, not, List, [], ◌∷◌, map, Option, none, some, Py, ok, raise,
}
use home_server.Common.Substrings.{occurs}
use home_server.ServiceCatalog.Checks.{error_line, Check, for_each, report_if, run, ◌>>=◌, ◌>>◌}

-- The files below the root of the repository, by their relative paths: (REPO_ROOT / relative).exists(),
-- and read(relative), which raises for a file that is missing or no UTF-8.
pub record Tree : Type 0 where
  pub exists : String → Bool
  pub read : String → Py String

unfoldable pub retired : List String
retired =
    "apps/gpt-researcher/kustomization.yaml" ∷ "apps/personal-assistant/kustomization.yaml"
    ∷ "images/gpt-researcher-service/Dockerfile" ∷ "images/personal-assistant-mcp/package.json"
    ∷ "images/todoist-mcp/package.json" ∷ "scripts/configure-personal-assistant.py"
    ∷ "scripts/update_gpt_researcher_models.py" ∷ "apps/open-webui/config/reconcile.py"
    ∷ "apps/open-webui/config/migrate_embeddings.py" ∷ []

-- A file that is read, and the texts that it may not hold, or has to.
pub record TextRule : Type 0 where
  pub file : String
  pub message : String
  pub texts : List String

unfoldable pub open_webui : TextRule
open_webui = record {
  file = "apps/open-webui/deployments.yaml";
  message = "Open WebUI deployment contains application-state ownership regression: ";
  texts =
      "initContainers:" ∷ "reconcile-security-policy" ∷ "migrate-gemini-embeddings"
      ∷ "RAG_EMBEDDING_CONTENT_PREFIX" ∷ "RAG_EMBEDDING_QUERY_PREFIX" ∷ "gpt-researcher-secrets"
      ∷ "personal-assistant-secrets" ∷ [];
}

unfoldable pub audiobookshelf : TextRule
audiobookshelf = record {
  file = "apps/audiobookshelf/deployment.yaml";
  message = "Audiobookshelf deployment would overwrite application state: ";
  texts =
      "postStart:" ∷ "AUDIOBOOKSHELF_BOOTSTRAP_PASSWORD" ∷ "AUDIOBOOKSHELF_OIDC_CLIENT_SECRET"
      ∷ "gitops-bootstrap-complete" ∷ "audiobookshelf-bootstrap" ∷ [];
}

unfoldable pub mcphub : TextRule
mcphub = record {
  file = "apps/mcphub/workloads.yaml";
  message = "MCPHub operational setting must live in its database, not its workload manifest: ";
  texts =
      "FAST_LLM" ∷ "SMART_LLM" ∷ "STRATEGIC_LLM" ∷ "MAX_ITERATIONS" ∷ "VIKUNJA_API_TOKEN"
      ∷ "GOOGLE_REFRESH_TOKEN" ∷ [];
}

unfoldable pub package_image : TextRule
package_image = record {
  file = "images/mcphub-gptr/Dockerfile";
  message = "reviewed MCP package pin is missing: ";
  texts =
      "https://github.com/assafelovic/gptr-mcp.git" ∷ "@modelcontextprotocol/server-filesystem@"
      ∷ "@eargollo/vikunja-mcp@" ∷ "@klodr/gmail-mcp@" ∷ "@cocal/google-calendar-mcp@"
      ∷ "mcp-arr-server@" ∷ "navidrome-mcp@" ∷ "audiobookshelf-mcp[mcp]=="
      ∷ "https://github.com/aserper/jellyseerr-mcp.git"
      ∷ "https://github.com/grafana/mcp-grafana.git"
      ∷ "https://github.com/containers/kubernetes-mcp-server.git"
      ∷ "https://github.com/github/github-mcp-server.git"
      ∷ "https://github.com/s-stefanov/actual-mcp.git" ∷ [];
}

unfoldable pub code_image : TextRule
code_image = record {
  file = "images/mcp-v8/Dockerfile";
  message = "sandboxed code-execution image guard is missing: ";
  texts =
      "https://github.com/r33drichards/mcp-js/releases/download/" ∷ "sha256sum --check --strict"
      ∷ "USER 65532:65532" ∷ [];
}

abbrev pub retired_check : Tree → String → Check (Unit {0})
retired_check tree path =
    report_if (tree.exists path)
      ("retired state reconciler or custom MCP artifact exists: " ∷ path ∷ [])

abbrev pub forbidden_check : String → String → String → Check (Unit {0})
unfolding occurs
forbidden_check message content text = report_if (occurs text content) (message ∷ text ∷ [])

abbrev pub required_check : String → String → String → Check (Unit {0})
unfolding occurs
required_check message content text = report_if (not (occurs text content)) (message ∷ text ∷ [])

unfoldable pub holds_none : Tree → TextRule → Check (Unit {0})
holds_none tree rule = do
  content ← run (tree.read rule.file)
  for_each (forbidden_check rule.message content) rule.texts

unfoldable pub holds_all : Tree → TextRule → Check (Unit {0})
holds_all tree rule = do
  content ← run (tree.read rule.file)
  for_each (required_check rule.message content) rule.texts

unfoldable pub ownership : Tree → Check (Unit {0})
unfolding holds_none holds_all retired open_webui audiobookshelf mcphub package_image code_image
ownership tree = do
  for_each (retired_check tree) retired
  holds_none tree open_webui
  holds_none tree audiobookshelf
  holds_none tree mcphub
  holds_all tree package_image
  holds_all tree code_image

-- The exit status, and the lines on stdout and on stderr.
pub record Verdict : Type 0 where
  pub status : ℕ
  pub stdout : List String
  pub stderr : List String

abbrev pub reported : Check (Unit {0}) → Py Verdict
unfolding concat
reported (raise e) = raise e
reported (ok ([], u)) = ok (record {
  status = 0;
  stdout = "Application-state ownership policy is satisfied." ∷ [];
  stderr = [];
})
reported (ok (e ∷ errors, u)) =
    ok (record { status = 1; stdout = []; stderr = map error_line (e ∷ errors) })

unfoldable pub main : Tree → Py Verdict
unfolding ownership
main tree = reported (ownership tree)
