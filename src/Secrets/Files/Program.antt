-- ===== src/Secrets/Files/Program.antt =====
-- What a run of validate-secrets.py that ends with status 0 guarantees of the tracked files.
use home_server.Common.{String, ◌≡◌, refl, List, Option, ok}
use home_server.Secrets.Rules.{Rule}
use home_server.Secrets.Scan.{Candidate, scan, main}
use home_server.Secrets.Files.{Worktree, candidates, creation_rules, is_given, judged, program}

-- Where the rules are loaded and the files are listed, a run is the scan of the files.
pub program-scan :
    (t : Worktree) (rendered : Option String) (rules : List Rule) (files : List Candidate)
    → creation_rules t ≡ ok rules
    → candidates t rendered ≡ ok files
    → program t rendered ≡ scan t.render t.search (is_given t rendered) rules files
unfolding program judged main
program-scan t rendered rules files loads lists = rw (loads, lists) refl
