-- ===== src/Tools/Requests/History.antt =====
-- What holds after any number of calls of the service.
use peka_saas.Common.{
  ℕ, ◌≡◌, inl, inr, refl, Bool, true, false, List, [], ◌∷◌, arith, All, Any, update_rows,
  Option-cases, ◌==◌, ◌&&◌, ◌∙◌, ap, find_holds, ◌≤◌, subst, sym,
}
use peka_saas.Common.Exec.{is_ok}
use peka_saas.Common.Keyed.{IsKeyed, find-Any, IsKeyed-same, Any-update}
use peka_saas.Connector.Types.{ManagedConnector}
use peka_saas.Tools.Types.{
  ToolStatus, OperationalToolRequest, OperationalToolResultSubmission, SubmittedStatus, Db,
}
use peka_saas.Tools.Requests.{Env, submit, is_open, maximum_attempts, request_of, submitted, ended}
use peka_saas.Common.Exec.{begin}
use peka_saas.Tools.Requests.Lifecycle.{
  Call, submits, Refines, key, Step, first, again, complete, fail, lapse,
}
use peka_saas.Tools.Requests.Refinement.{Call-Refines}

-- The committed tables that calls lead to.
pub data Reach (env : Env) (d : Db) : Db → Type 0 where
  here : Reach env d d
  next : {e f : Db} → Reach env d e → Call env e f → Reach env d f

pub Reach-IsKeyed :
    {env : Env} {d e : Db} → Reach env d e → IsKeyed key d.requests → IsKeyed key e.requests
Reach-IsKeyed here keyed = keyed
Reach-IsKeyed (next {e = e} {f = f} r c) keyed = (Call-Refines _ e f c (Reach-IsKeyed r keyed)).1

-- No request is counted with more than three attempts.
abbrev pub IsBounded : List OperationalToolRequest → Type 0
IsBounded = All (λ r. r.attempt_count ≤ maximum_attempts)

Step-bound :
    {s t : ToolStatus} {m n : ℕ} → Step s m t n → m ≤ maximum_attempts → n ≤ maximum_attempts
Step-bound (first n h) k = omega arith
Step-bound (again n h) k = omega arith
Step-bound (complete n) k = k
Step-bound (fail n) k = k
Step-bound (lapse s n h) k = k

Follow-IsBounded :
    (xs ys : List OperationalToolRequest) → Refines xs ys → IsBounded xs → IsBounded ys
Follow-IsBounded [] [] h b = tt
Follow-IsBounded [] (y ∷ ys) h b = (omega (arith, h.0.1), Follow-IsBounded [] ys h.1 tt)
Follow-IsBounded (x ∷ xs) [] h b = absurd h
Follow-IsBounded (x ∷ xs) (y ∷ ys) h b = (
  elim h.0.moves [ inl same ↦ omega (arith, same.1, b.0) | inr step ↦ Step-bound step b.0 ],
  Follow-IsBounded xs ys h.1 b.1,
)

-- When no two requests of the table have the same id, and none is counted with more than three
-- attempts, the same holds after any number of calls.
pub Reach-IsBounded :
    (env : Env) (d e : Db)
    → Reach env d e
    → IsKeyed key d.requests
    → IsBounded d.requests
    → IsBounded e.requests
Reach-IsBounded env d _ here keyed b = b
Reach-IsBounded env d f (next {e = e} r c) keyed b =
    Follow-IsBounded e.requests f.requests (Call-Refines env e f c (Reach-IsKeyed r keyed)).0
      (Reach-IsBounded env d e r keyed b)

-- The request with the id is finished: it is COMPLETED or FAILED.
abbrev IsFinished : ℕ → List OperationalToolRequest → Type 0
IsFinished id = Any (λ r. (r.id ≡ id) × (is_open r.status ≡ false))

Step-unfinished : {s t : ToolStatus} {m n : ℕ} → Step s m t n → is_open s ≡ true
Step-unfinished (first n h) = refl
Step-unfinished (again n h) = refl
Step-unfinished (complete n) = refl
Step-unfinished (fail n) = refl
Step-unfinished (lapse s n h) = h

Follow-IsFinished :
    (id : ℕ) (xs ys : List OperationalToolRequest)
    → Refines xs ys
    → IsFinished id xs
    → IsFinished id ys
Follow-IsFinished id [] ys h fin = absurd fin
Follow-IsFinished id (x ∷ xs) [] h fin = absurd h
Follow-IsFinished id (x ∷ xs) (y ∷ ys) h (inr fin) = inr (Follow-IsFinished id xs ys h.1 fin)
Follow-IsFinished id (x ∷ xs) (y ∷ ys) h (inl fin) = inl (
  h.0.id ∙ fin.0,
  elim h.0.moves [
    | inl same ↦ ap is_open same.0 ∙ fin.1
    | inr step ↦ absurd (ground (arith, Step-unfinished step, fin.1))
  ],
)

Reach-IsFinished :
    {env : Env} {d e : Db} (id : ℕ)
    → Reach env d e
    → IsKeyed key d.requests
    → IsFinished id d.requests
    → IsFinished id e.requests
Reach-IsFinished id here keyed fin = fin
Reach-IsFinished id (next {e = e} {f = f} r c) keyed fin =
    Follow-IsFinished id e.requests f.requests (Call-Refines _ e f c (Reach-IsKeyed r keyed)).0
      (Reach-IsFinished id r keyed fin)

ended-finished :
    (s : OperationalToolResultSubmission) (t : SubmittedStatus) (now : ℕ)
    (r : OperationalToolRequest)
    → ((ended s t now r).id ≡ r.id) × (is_open (ended s t now r).status ≡ false)
ended-finished s SubmittedStatus.completed now r = (refl, refl)
ended-finished s SubmittedStatus.failed now r = (refl, refl)

abbrev is_of : ManagedConnector → ℕ → OperationalToolRequest → Bool
is_of c id r = r.id == id && (r.connector_id == c.id && r.tenant_id == c.tenant_id)

-- A submission for a finished request is refused.
submit-finished :
    (env : Env) (d : Db) (c : ManagedConnector) (id : ℕ) (s : OperationalToolResultSubmission)
    (now : ℕ)
    → IsKeyed key d.requests
    → IsFinished id d.requests
    → is_ok (submit env c id s now (begin d)).0 ≡ false
unfolding submit
submit-finished env d c id s now keyed fin = elim (Option-cases (request_of c id d)) [
  | inl e ↦ ground arith
  | inr (r, e) ↦
      let same : r.id ≡ id = ground (arith, find_holds (is_of c id) d.requests r e) in
      let finished : is_open r.status ≡ false =
        IsKeyed-same key (λ x. is_open x.status ≡ false) r d.requests keyed
          (find-Any (is_of c id) d.requests r e)
          (subst (λ i. IsFinished i d.requests) (sym same) fin) in
      ground arith
]

-- An accepted submission finishes the request.
submit-IsFinished :
    (env : Env) (d : Db) (c : ManagedConnector) (id : ℕ) (s : OperationalToolResultSubmission)
    (now : ℕ)
    → is_ok (submit env c id s now (begin d)).0 ≡ true
    → IsFinished id (submit env c id s now (begin d)).1.committed.requests
unfolding submit
submit-IsFinished env d c id s now h = elim (Option-cases (request_of c id d)) [
  | inl e ↦ absurd (ground arith)
  | inr (r, e) ↦
      let same : r.id ≡ id = ground (arith, find_holds (is_of c id) d.requests r e) in
      let rows : (submit env c id s now (begin d)).1.committed.requests
          ≡ update_rows (λ x. x.id == r.id) (submitted s now) d.requests =
        ground arith in
      subst (λ rs. IsFinished id rs) (sym rows)
        (Any-weaken (submitted s now r)
          (update_rows (λ x. x.id == r.id) (submitted s now) d.requests)
          ((ended-finished s s.status now r).0 ∙ same) (ended-finished s s.status now r).1
          (Any-update key (submitted s now) r d.requests (find-Any (is_of c id) d.requests r e)))
]
  where
    Any-weaken :
        (y : OperationalToolRequest) (ys : List OperationalToolRequest)
        → y.id ≡ id
        → is_open y.status ≡ false
        → Any (λ x. x ≡ y) ys
        → IsFinished id ys
    Any-weaken y [] same fin h = h
    Any-weaken y (z ∷ ys) same fin (inl e) =
        inl (ap key e ∙ same, ap (λ (x : OperationalToolRequest). is_open x.status) e ∙ fin)
    Any-weaken y (z ∷ ys) same fin (inr h) = inr (Any-weaken y ys same fin h)

-- In a table without two requests of the same id, once a submission for a request is accepted,
-- every later submission for it is refused, whichever connector sends it, with whatever token, at
-- any time and after any calls.
pub submit_once :
    (env : Env) (d e : Db) (c c' : ManagedConnector) (id : ℕ)
    (s s' : OperationalToolResultSubmission) (now later : ℕ)
    → IsKeyed key d.requests
    → is_ok (submit env c id s now (begin d)).0 ≡ true
    → Reach env (submit env c id s now (begin d)).1.committed e
    → is_ok (submit env c' id s' later (begin e)).0 ≡ false
submit_once env d e c c' id s s' now later keyed accepted r =
    let d' : Db = (submit env c id s now (begin d)).1.committed in
    let keyed' : IsKeyed key d'.requests = (Call-Refines env d d' (submits d c id s now) keyed).1 in
    submit-finished env e c' id s' later (Reach-IsKeyed r keyed')
      (Reach-IsFinished id r keyed' (submit-IsFinished env d c id s now accepted))
