-- ===== src/HighRiskPolicy/Guarantee.antt =====
-- What a check that passes says of the manifest.
use home_server.Common.{
  ◌∈◌, in-append_left, returned_by_bind, String, ◌≡◌, refl, sym, true, false, List, ◌++◌, All,
  Option, some, Py, ok, raise, arith,
}
use home_server.Common.Order.{sorted_set, sorted_set-in, in-sorted_set, Ascending-sorted_set}
use home_server.Json.{Value, Fields, get, truthy}
use home_server.YamlDocuments.Objects.{Nested}
use home_server.HighRiskPolicy.Texts.{Library, resource_id, finding}
use home_server.HighRiskPolicy.Containers.{pod_spec, iter_containers}
use home_server.HighRiskPolicy.Pods.{pod_findings}
use home_server.HighRiskPolicy.Pods.Complete.{Hazard, hazard-in_pod_findings}
use home_server.HighRiskPolicy.Resource.{other_findings, resource_findings}
use home_server.HighRiskPolicy.Detect.{detect}
use home_server.HighRiskPolicy.Detect.Complete.{detect-resource_findings}
use home_server.HighRiskPolicy.Baseline.{
  Outcome, Arguments, compare, on_detected, read_baseline, write_baseline, main,
}
use home_server.HighRiskPolicy.Baseline.Gate.{compare-code_iff}
use home_server.HighRiskPolicy.Baseline.RoundTrip.{IsClean, read_baseline-write_baseline}

module _ (lib : Library) (arguments : Arguments) where
  -- What follows the scan returned 0 only on findings that match the baseline.
  passed_scan :
      (r : Py (List String)) (content : String) (outcome : Outcome) (file : Option String)
      → arguments.write_baseline ≡ false
      → on_detected lib arguments r (some content) ≡ ok (outcome, file)
      → outcome.code ≡ 0
      → (findings : List String) × (r ≡ ok findings)
        × ((compare arguments.baseline findings (read_baseline content)).code ≡ 0)
  unfolding on_detected
  passed_scan (ok findings) content outcome file check h zero = (findings, refl, ground arith)
  passed_scan (raise e) content outcome file check h zero = cc

  -- A check that returns 0 found on each object with a kind, wherever it stands in the documents, only
  -- what the baseline lists.
  pub passing_check-reviewed :
      (documents : List Value) (content : String) (outcome : Outcome) (file : Option String)
      (document : Value) (o : Fields)
      → arguments.write_baseline ≡ false
      → main lib arguments (ok documents) (some content) ≡ ok (outcome, file)
      → outcome.code ≡ 0
      → document ∈ documents
      → Nested o document
      → truthy (get "kind" o) ≡ true
      → (found : List String) × (resource_findings lib o ≡ ok found)
        × ((a : String) → a ∈ found → a ∈ read_baseline content)
  unfolding main
  passing_check-reviewed documents content outcome file document o check h zero m n k =
      let (findings, scan, passed) =
        passed_scan (detect lib documents) content outcome file check h zero in
      let (found, rules, up) =
        detect-resource_findings lib o documents findings document scan m n k in
      let (_, same) =
        (compare-code_iff arguments.baseline findings (read_baseline content)).0 passed in
      (found, rules, λ a i. (same a).1 (up a i))

  pods_found :
      (o : Fields) (found : List String) (a : String)
      → resource_findings lib o ≡ ok found
      → a ∈ pod_findings lib (resource_id o) o
      → a ∈ found
  unfolding resource_findings
  pods_found o found a h i =
      let (others, last, run) = returned_by_bind _ (other_findings lib o) found (sym h) in
      let whole : pod_findings lib (resource_id o) o ++ others ≡ found = cc in
      rw (← whole) (in-append_left a (pod_findings lib (resource_id o) o) others i)

  -- After a check that returns 0, each privileged, escalating, unmasked, root user, root group, unconfined
  -- or host process setting, each added capability and each host port of a container of a pod of the
  -- documents stands in the baseline, under its rule, its object and its container.
  pub passing_check-Hazard :
      (documents : List Value) (content : String) (outcome : Outcome) (file : Option String)
      (document : Value) (o spec container : Fields) (location rule place : String)
      → arguments.write_baseline ≡ false
      → main lib arguments (ok documents) (some content) ≡ ok (outcome, file)
      → outcome.code ≡ 0
      → document ∈ documents
      → Nested o document
      → truthy (get "kind" o) ≡ true
      → pod_spec o ≡ some spec
      → (location, container) ∈ iter_containers spec
      → Hazard lib location container rule place
      → finding rule (resource_id o) place ∈ read_baseline content
  passing_check-Hazard documents content outcome file document o spec container location rule place
        check h zero m n k p c z =
      let (found, rules, listed) =
        passing_check-reviewed documents content outcome file document o check h zero m n k in
      listed (finding rule (resource_id o) place) (
        pods_found o found (finding rule (resource_id o) place) rules
          (hazard-in_pod_findings lib (resource_id o) location rule place o spec container p c z))

  checked_content :
      (documents : List Value) (findings : List String) (content : String)
      → arguments.write_baseline ≡ false
      → detect lib documents ≡ ok findings
      → main lib arguments (ok documents) (some content)
        ≡ ok (compare arguments.baseline findings (read_baseline content), some content)
  unfolding main on_detected
  checked_content documents findings content check scan = rw (scan, check)

  -- A check returns 0 on the baseline that `--write-baseline` has written for the same documents, if each
  -- finding is one line that is no comment and has no white space around it.
  pub main-write_then_check :
      (documents : List Value) (findings : List String)
      → arguments.write_baseline ≡ false
      → detect lib documents ≡ ok findings
      → All IsClean findings
      → (outcome : Outcome) × (main lib arguments (ok documents) (some (write_baseline findings))
          ≡ ok (outcome, some (write_baseline findings)))
        × (outcome.code ≡ 0)
  main-write_then_check documents findings check scan clean =
      let read = read_baseline-write_baseline findings clean in
      let same = (compare-code_iff arguments.baseline findings (sorted_set findings)).1 (
        Ascending-sorted_set findings,
        λ a. (sorted_set-in a findings, in-sorted_set a findings),
      ) in
      (
        compare arguments.baseline findings (read_baseline (write_baseline findings)),
        checked_content documents findings (write_baseline findings) check scan,
        rw read same,
      )
