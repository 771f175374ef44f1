-- ===== src/Tools/Requests/Handed.antt =====
-- How often a request is handed to a connector, over any number of calls of the service.
use peka_saas.Common.{
  ℕ, ◌+◌, ◌≤◌, ◌≡◌, ◌≢◌, inl, inr, refl, ap, sym, subst, true, Option, none, some, List, [], ◌∷◌,
  arith, All, Any, update_rows, ◌==◌, ==_refl, if◌then◌else◌, Bool-cases, eq_of_==, ◌∙◌,
}
use peka_saas.Common.Exec.{Result, ok, err, begin}
use peka_saas.Common.Keyed.{IsKeyed}
use peka_saas.Common.Order.{earliest-Any}
use peka_saas.Connector.Types.{ManagedConnector}
use peka_saas.Tools.Types.{
  OperationalToolRequest, OperationalToolRequestView, ToolError, ToolStatus, Db,
}
use peka_saas.Tools.Requests.{Env, claim, claimed, is_claimable}
use peka_saas.Tools.Requests.Lifecycle.{
  Call, creates, claims, submits, results, clears, elsewhere, Refines, key, Step, first, again,
  complete, fail, lapse,
}
use peka_saas.Tools.Requests.Refinement.{Call-Refines}
use peka_saas.Tools.Requests.History.{Reach, here, next, IsBounded, Reach-IsBounded, Reach-IsKeyed}
use peka_saas.Tools.Requests.Exchange.{claim-found}

-- 1 where the claim returns a view of the request with the id.
abbrev pub is_handed : ℕ → Result ToolError (Option OperationalToolRequestView) → ℕ
is_handed id (ok (some v)) = if v.id == id then 1 else 0
is_handed id (ok none) = 0
is_handed id (err e) = 0

abbrev pub handed_by : {env : Env} {d e : Db} → ℕ → Call env d e → ℕ
handed_by {env = env} id (claims d c token now) = is_handed id (claim env c token now (begin d)).0
handed_by id (creates d tenant_id user_id tool_name arguments new_id now fresh) = 0
handed_by id (submits d c request_id s now) = 0
handed_by id (results d tenant_id request_id now) = 0
handed_by id (clears d tenant_id request_id) = 0
handed_by id (elsewhere d cs ks) = 0

-- The claims among the calls that return a view of the request with the id.
abbrev pub handed : {env : Env} {d e : Db} → ℕ → Reach env d e → ℕ
handed id here = 0
handed id (next r c) = handed id r + handed_by id c

-- The counted attempts of the rows with the id.
abbrev pub attempts : ℕ → List OperationalToolRequest → ℕ
attempts id [] = 0
attempts id (r ∷ rs) = (if r.id == id then r.attempt_count else 0) + attempts id rs

Step-le : {s t : ToolStatus} {m n : ℕ} → Step s m t n → m ≤ n
Step-le (first n h) = omega arith
Step-le (again n h) = omega arith
Step-le (complete n) = omega arith
Step-le (fail n) = omega arith
Step-le (lapse s n h) = omega arith

Refines-attempts :
    (id : ℕ) (xs ys : List OperationalToolRequest) → Refines xs ys → attempts id xs ≤ attempts id ys
Refines-attempts id [] ys h = omega arith
Refines-attempts id (x ∷ xs) [] h = absurd h
Refines-attempts id (x ∷ xs) (y ∷ ys) h =
    let counted : x.attempt_count ≤ y.attempt_count = elim h.0.moves [
      | inl same ↦ omega (arith, same.1)
      | inr step ↦ Step-le step
    ] in
    rw h.0.id (ground (arith, counted, Refines-attempts id xs ys h.1))

claimed-attempts-le :
    (id hash now : ℕ) (xs : List OperationalToolRequest)
    → attempts id xs ≤ attempts id (update_rows (λ x. x.id == id) (claimed hash now) xs)
claimed-attempts-le id hash now [] = omega arith
claimed-attempts-le id hash now (x ∷ xs) = ground (arith, claimed-attempts-le id hash now xs)

claimed-attempts :
    (hash now : ℕ) (r : OperationalToolRequest) (xs : List OperationalToolRequest)
    → Any (λ x. x ≡ r) xs
    → attempts r.id xs + 1 ≤ attempts r.id (update_rows (λ x. x.id == r.id) (claimed hash now) xs)
claimed-attempts hash now r [] h = absurd h
claimed-attempts hash now r (x ∷ xs) (inl e) =
    let same : (x.id == r.id) ≡ true = rw e (==_refl r.id) in
    ground (arith, same, claimed-attempts-le r.id hash now xs)
claimed-attempts hash now r (x ∷ xs) (inr h) = ground (arith, claimed-attempts hash now r xs h)

claim-attempts :
    (env : Env) (d : Db) (c : ManagedConnector) (token now id : ℕ)
    (o : Result ToolError (Option OperationalToolRequestView))
    → (claim env c token now (begin d)).0 ≡ o
    → attempts id d.requests ≤ attempts id (claim env c token now (begin d)).1.committed.requests
    → attempts id d.requests + is_handed id o
      ≤ attempts id (claim env c token now (begin d)).1.committed.requests
claim-attempts env d c token now id (err e) h le = omega (arith, le)
claim-attempts env d c token now id (ok none) h le = omega (arith, le)
claim-attempts env d c token now id (ok (some v)) h le = elim (Bool-cases (v.id == id)) [
  | inr other ↦ rw other (omega (arith, le))
  | inl same ↦
      let (r, found, shown, rows) = claim-found env d c token now v h in
      let e : id ≡ r.id =
        sym (eq_of_== v.id id same) ∙ ap (λ (x : OperationalToolRequestView). x.id) shown in
      let counted =
        claimed-attempts (env.sha256 token) now r d.requests
          (earliest-Any (λ r. r.created_at) (is_claimable c now) d.requests r found) in
      rw same (
        subst (λ rs. attempts id d.requests + 1 ≤ attempts id rs) (sym rows)
          (subst
            (λ i.
              attempts i d.requests + 1
              ≤ attempts i
                  (update_rows (λ x. x.id == r.id) (claimed (env.sha256 token) now) d.requests))
            (sym e) counted))
]

-- A call counts what it hands out.
Call-attempts :
    {env : Env} {d e : Db} (id : ℕ) (call : Call env d e)
    → attempts id d.requests ≤ attempts id e.requests
    → attempts id d.requests + handed_by id call ≤ attempts id e.requests
Call-attempts {env = env} id (claims d c token now) le =
    claim-attempts env d c token now id (claim env c token now (begin d)).0 refl le
Call-attempts id (creates d tenant_id user_id tool_name arguments new_id now fresh) le =
    omega (arith, le)
Call-attempts id (submits d c request_id s now) le = omega (arith, le)
Call-attempts id (results d tenant_id request_id now) le = omega (arith, le)
Call-attempts id (clears d tenant_id request_id) le = omega (arith, le)
Call-attempts id (elsewhere d cs ks) le = omega (arith, le)

Reach-attempts :
    {env : Env} {d e : Db} (id : ℕ) (t : Reach env d e)
    → IsKeyed key d.requests
    → attempts id d.requests + handed id t ≤ attempts id e.requests
Reach-attempts id here keyed = omega arith
Reach-attempts {env = env} id (next {e = e} {f = f} t c) keyed =
    let kept =
      Refines-attempts id e.requests f.requests
        (Call-Refines env e f c (Reach-IsKeyed t keyed)).0 in
    omega (arith, Reach-attempts id t keyed, Call-attempts id c kept)

attempts-absent :
    (id : ℕ) (xs : List OperationalToolRequest) → All (λ y. y.id ≢ id) xs → attempts id xs ≡ 0
attempts-absent id [] h = refl
attempts-absent id (x ∷ xs) h = ground (arith, h.0, attempts-absent id xs h.1)

attempts-bound :
    (id : ℕ) (xs : List OperationalToolRequest) → IsKeyed key xs → IsBounded xs → attempts id xs ≤ 3
attempts-bound id [] keyed b = omega arith
attempts-bound id (x ∷ xs) keyed b = elim (Bool-cases (x.id == id)) [
  | inl e ↦
      let absent =
        attempts-absent id xs (subst (λ i. All (λ y. y.id ≢ i) xs) (eq_of_== x.id id e) keyed.0) in
      rw e (omega (arith, b.0, absent))
  | inr e ↦ rw e (omega (arith, attempts-bound id xs keyed.1 b.1))
]

-- In a table without two requests of the same id, none counted with more than three attempts,
-- whatever calls of the service follow: the claims among them that hand out the request with an
-- id, by whatever connectors, are with the attempts that it had at most three.
pub handed_at_most :
    (env : Env) (d e : Db) (id : ℕ) (t : Reach env d e)
    → IsKeyed key d.requests
    → IsBounded d.requests
    → attempts id d.requests + handed id t ≤ 3
handed_at_most env d e id t keyed b = omega (
  arith,
  Reach-attempts id t keyed,
  attempts-bound id e.requests (Reach-IsKeyed t keyed) (Reach-IsBounded env d e t keyed b),
)
