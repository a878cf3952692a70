-- ===== src/Simulator/Repository.antt =====
-- simulator/services/mock_repo.py: `MockCodeRepository`. Times are microseconds of one clock. The
-- limits are not negative: for a negative one the slice drops items from the end.
pub mod Deployments
use ops_pilot_ai.Prelude.{
  ℕ, zero, suc, ◌+◌, ◌-◌, ◌*◌, ◌/◌, ◌%◌, ◌≤◌, ◌<◌, min, max, String, ◌≡◌, refl, sym, ap, ◌∙◌, ◌≢◌,
  ◌↔◌, ◌⊎◌, inl, inr, Bool, true, false, not, ◌&&◌, ◌||◌, Option, none, some, List, [], ◌∷◌, ◌++◌,
  map, arith, eq_iff, eq_refl, ltb, leb, nat_eqb, nat_eqb_iff, if◌then◌else◌, Eq, ◌==◌, ℕ_eq,
  String_eq, Bool-cases, Option-cases, length, take, drop, head?, last?, keep_if, find_if, any_of,
  All, length-append, length-drop, All-append, All-keep_if, elem, elem-append, nodup,
}
use text.Mathlib.Text.{starts_with}
use ops_pilot_ai.Prelude.Sorting.{sort_by, descending}
use ops_pilot_ai.Value.{Fields}

pub record CommitRecord : Type 0 where
  pub commit_sha : String
  pub service : String
  pub author : String
  pub message : String
  pub timestamp : ℕ
  pub changed_files : List String
  pub diff : String

pub record DeploymentEvent : Type 0 where
  pub deployment_id : String
  pub service : String
  pub version : String
  pub previous_version : String
  pub timestamp : ℕ
  pub deployed_by : String
  pub status : String
  pub commit_sha : String
  pub config_changes : Fields

pub record Repository : Type 0 where
  pub commits : List CommitRecord
  pub deployments : List DeploymentEvent

abbrev pub commit_time : CommitRecord → ℕ
commit_time c = c.timestamp

abbrev pub deployment_time : DeploymentEvent → ℕ
deployment_time d = d.timestamp

unfoldable pub record_commit : CommitRecord → Repository → Repository
record_commit c repo = record repo { commits = repo.commits ++ c ∷ [] }

unfoldable pub record_deployment : DeploymentEvent → Repository → Repository
record_deployment d repo = record repo { deployments = repo.deployments ++ d ∷ [] }

-- `if since: results = [x for x in results if x.timestamp >= since]`
abbrev pub is_since : Option ℕ → ℕ → Bool
is_since none time = true
is_since (some since) time = leb since time

unfoldable pub get_recent_commits : String → ℕ → Option ℕ → Repository → List CommitRecord
get_recent_commits service limit since repo =
    let of_service = keep_if (λ (c : CommitRecord). c.service == service) repo.commits in
    let results = keep_if (λ (c : CommitRecord). is_since since c.timestamp) of_service in
    take limit (sort_by (descending commit_time) results)

unfoldable pub get_commit_diff : String → Repository → String
get_commit_diff commit_sha repo =
    elim (find_if
      (λ (c : CommitRecord). c.commit_sha == commit_sha || starts_with c.commit_sha commit_sha)
      repo.commits) [ none ↦ "" | some c ↦ c.diff ]

-- `if service:`, where a service is absent or a text
abbrev pub is_given : Option String → Bool
is_given none = false
is_given (some t) = not (t == "")

abbrev pub is_present : Option ℕ → Bool
is_present none = false
is_present (some t) = true

abbrev pub is_of : Option String → DeploymentEvent → Bool
is_of none d = true
is_of (some t) d = t == "" || d.service == t

-- Without a filter, `results` is the repository's own list, and the sort changes that.
unfoldable pub get_recent_deployments :
    Option String → ℕ → Option ℕ → Repository → List DeploymentEvent × Repository
get_recent_deployments service limit since repo =
    let of_service = keep_if (is_of service) repo.deployments in
    let results = keep_if (λ (d : DeploymentEvent). is_since since d.timestamp) of_service in
    let sorted = sort_by (descending deployment_time) results in
    (
      take limit sorted,
      if is_given service || is_present since then repo else record repo { deployments = sorted },
    )
