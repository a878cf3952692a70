-- ===== src/Simulator/Repository/Deployments.antt =====
-- The deployments that the repository lists, whatever was asked of it before: the sort in place of a
-- query without a filter shows in no answer.
use ops_pilot_ai.Prelude.{
  ◌∙◌, ap, ℕ, String, ◌≡◌, refl, sym, inl, inr, Bool, false, ◌&&◌, ◌||◌, Option, none, some, List,
  [], ◌∷◌, ◌++◌, arith, ◌==◌, ℕ_eq, String_eq, Bool-cases, take, keep_if, keep_if-true,
  keep_if-keep_if,
}
use ops_pilot_ai.Prelude.Sorting.{
  sort_by, descending, descending-TotalOrder, sort_by-IsSorted, keep_if-sort_by, sort_by-sorted,
  sort_by-append,
}
use ops_pilot_ai.Simulator.Repository.{
  CommitRecord, DeploymentEvent, Repository, deployment_time, record_commit, record_deployment,
  is_since, is_given, is_present, is_of, get_recent_deployments,
}

-- A use of the repository.
pub data Use : Type 0 where
  committed : CommitRecord → Use
  deployed : DeploymentEvent → Use
  asked : Option String → ℕ → Option ℕ → Use

abbrev pub use_repository : Use → Repository → Repository
use_repository (committed c) repo = record_commit c repo
use_repository (deployed d) repo = record_deployment d repo
use_repository (asked service limit since) repo =
    (get_recent_deployments service limit since repo).1

-- The repository after uses, the last of which stands first.
abbrev pub used : List Use → Repository
used [] = record { commits = []; deployments = [] }
used (u ∷ earlier) = use_repository u (used earlier)

-- The deployments that were recorded, in order.
abbrev pub recorded : List Use → List DeploymentEvent
recorded [] = []
recorded (committed c ∷ earlier) = recorded earlier
recorded (deployed d ∷ earlier) = recorded earlier ++ d ∷ []
recorded (asked service limit since ∷ earlier) = recorded earlier

abbrev newest : List DeploymentEvent → List DeploymentEvent
newest ds = sort_by (descending deployment_time) ds

abbrev pub is_wanted : Option String → Option ℕ → DeploymentEvent → Bool
is_wanted service since d = is_of service d && is_since since d.timestamp

-- A service that is not given filters nothing.
is_of-given :
    (service : Option String) (ds : List DeploymentEvent)
    → is_given service ≡ false
    → keep_if (is_of service) ds ≡ ds
is_of-given none ds h = keep_if-true ds
is_of-given (some t) ds h = elim (Bool-cases (t == "")) [
  | inl e ↦
      ap (λ (b : Bool). keep_if (λ (d : DeploymentEvent). b || d.service == t) ds) e
      ∙ keep_if-true ds
  | inr e ↦ ground (arith, e, h)
]

is_since-present :
    (since : Option ℕ) (ds : List DeploymentEvent)
    → is_present since ≡ false
    → keep_if (λ (d : DeploymentEvent). is_since since d.timestamp) ds ≡ ds
is_since-present none ds h = keep_if-true ds
is_since-present (some t) ds h = cc

newest-append : (xs ys : List DeploymentEvent) → newest (newest xs ++ ys) ≡ newest (xs ++ ys)
newest-append = sort_by-append (descending-TotalOrder deployment_time)

newest-newest : (xs : List DeploymentEvent) → newest (newest xs) ≡ newest xs
newest-newest xs =
    sort_by-sorted (descending-TotalOrder deployment_time) (newest xs)
      (sort_by-IsSorted (descending-TotalOrder deployment_time) xs)

-- The repository's list and the recorded deployments sort alike.
used-newest : (uses : List Use) → newest (used uses).deployments ≡ newest (recorded uses)
unfolding record_commit record_deployment get_recent_deployments
used-newest [] = refl
used-newest (committed c ∷ earlier) = used-newest earlier
used-newest (deployed d ∷ earlier) =
    rw
      (
        sym (newest-append (used earlier).deployments (d ∷ [])),
        used-newest earlier,
        newest-append (recorded earlier) (d ∷ []),
      )
      refl
used-newest (asked service limit since ∷ earlier) =
    elim (Bool-cases (is_given service || is_present since)) [
      | inl e ↦ rw e (used-newest earlier)
      | inr e ↦
          let given : is_given service ≡ false = ground (arith, e) in
          let present : is_present since ≡ false = ground (arith, e) in
          rw
            (
              e,
              is_of-given service (used earlier).deployments given,
              is_since-present since (used earlier).deployments present,
              newest-newest (used earlier).deployments,
            )
            (used-newest earlier)
    ]

-- After any uses of an empty repository, queries without a filter that sort its list in place
-- included, a query lists the newest recorded deployments of the service since the time, as many as
-- the limit allows, and those of one time in the order in which they were recorded.
pub deployments_exact :
    (uses : List Use) (service : Option String) (limit : ℕ) (since : Option ℕ)
    → (get_recent_deployments service limit since (used uses)).0
      ≡ take limit
          (sort_by (descending deployment_time) (keep_if (is_wanted service since) (recorded uses)))
unfolding get_recent_deployments
deployments_exact uses service limit since =
    let wanted = is_wanted service since in
    let order = descending-TotalOrder deployment_time in
    rw
      (
        keep_if-keep_if (is_of service) (λ (d : DeploymentEvent). is_since since d.timestamp)
            (used uses).deployments,
        sym (keep_if-sort_by order wanted (used uses).deployments),
        used-newest uses,
        keep_if-sort_by order wanted (recorded uses),
      )
      refl
