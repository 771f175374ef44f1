-- ===== src/Tools/Requests/Routing.antt =====
-- Which connector a new request is for.
use peka_saas.Common.{
  ℕ, ◌≤◌, ◌≡◌, ◌↔◌, inl, inr, sym, ap, ◌∙◌, subst, Bool, true, some, List, [], ◌∷◌, String, arith,
  All, Any, where_rows, Bool-cases, Option-cases, find_holds,
}
use peka_saas.Common.Exec.{ok, is_ok}
use peka_saas.Connector.Types.{ManagedConnector}
use peka_saas.Tools.Types.{OperationalToolRequest, Db, is_allowed}
use peka_saas.Tools.Requests.{create, chosen, new_request, ordered, is_fresh, is_candidate}
use peka_saas.Common.Keyed.{find-Any}
use peka_saas.Common.Exec.{begin}
use peka_saas.Tools.Requests.Ordered.{
  ordered-Any, Any-ordered, ordered-All, where_rows-Any, Any-where_rows, where_rows-All,
  ordered-IsSorted, find-latest, find-some, seen,
}

-- A connector of the table that a request of the tool may be for.
abbrev pub Qualifies : ℕ → String → ℕ → Db → ManagedConnector → Type 0
Qualifies tenant_id tool_name now d c =
    (is_candidate tenant_id tool_name d c ≡ true) × (is_fresh now c ≡ true)

abbrev IsFor : ℕ → ManagedConnector → ManagedConnector → Type 0
IsFor now c x = (is_fresh now x ≡ true) × (x ≡ c)

-- The request is for the connector, and no other that qualifies was seen later.
abbrev pub IsRouted : ℕ → String → ℕ → Db → OperationalToolRequest → ManagedConnector → Type 0
IsRouted tenant_id tool_name now d r x =
    Qualifies tenant_id tool_name now d x
    × (r.connector_id ≡ x.id)
    × All
        (λ y. is_candidate tenant_id tool_name d y ≡ true → is_fresh now y ≡ true → seen y ≤ seen x)
        d.connectors

-- What the choice finds.
module _ (tenant_id : ℕ) (tool_name : String) (now : ℕ) (d : Db) where
  abbrev p : ManagedConnector → Bool
  p = is_candidate tenant_id tool_name d

  chosen-some :
      Any (Qualifies tenant_id tool_name now d) d.connectors
      → (c : ManagedConnector) × (chosen tenant_id tool_name now d ≡ some c)
  unfolding chosen
  chosen-some h = find-some (is_fresh now) (ordered (where_rows p d.connectors)) (
      ordered-Any (λ c. is_fresh now c ≡ true) (where_rows p d.connectors)
        (where_rows-Any (λ c. is_fresh now c ≡ true) p d.connectors h))

  chosen-latest :
      (c : ManagedConnector)
      → chosen tenant_id tool_name now d ≡ some c
      → Any (λ x. (p x ≡ true) × IsFor now c x) d.connectors
        × All (λ x. p x ≡ true → is_fresh now x ≡ true → seen x ≤ seen c) d.connectors
  unfolding chosen
  chosen-latest c h =
      let cs : List ManagedConnector = where_rows p d.connectors in
      (
        Any-where_rows (IsFor now c) p d.connectors (
            Any-ordered (IsFor now c) cs (
              both (ordered cs) (find_holds (is_fresh now) (ordered cs) c h)
                (find-Any (is_fresh now) (ordered cs) c h))),
        where_rows-All (λ x. is_fresh now x ≡ true → seen x ≤ seen c) p d.connectors
            (ordered-All (λ x. is_fresh now x ≡ true → seen x ≤ seen c) cs
              (find-latest (is_fresh now) (ordered cs) c (ordered-IsSorted cs) h)),
      )
    where
      both :
          (xs : List ManagedConnector)
          → is_fresh now c ≡ true
          → Any (λ x. x ≡ c) xs
          → Any (IsFor now c) xs
      both [] f k = k
      both (x ∷ xs) f (inl e) = inl (ap (is_fresh now) e ∙ f, e)
      both (x ∷ xs) f (inr k) = inr (both xs f k)

  module _ (user_id arguments id : ℕ) where
    create-ok :
        is_allowed tool_name ≡ true
        → (c : ManagedConnector) → chosen tenant_id tool_name now d ≡ some c
        → (create tenant_id user_id tool_name arguments id now (begin d)).0
          ≡ ok (new_request tenant_id c user_id tool_name arguments id now)
    unfolding create
    create-ok allowed c h = ground arith

    create-allowed :
        is_ok (create tenant_id user_id tool_name arguments id now (begin d)).0 ≡ true
        → (is_allowed tool_name ≡ true)
          × (c : ManagedConnector) × (chosen tenant_id tool_name now d ≡ some c)
    unfolding create
    create-allowed h = elim (Bool-cases (is_allowed tool_name)) [
      | inr e ↦ absurd (ground arith)
      | inl e ↦ elim (Option-cases (chosen tenant_id tool_name now d)) [
        | inl e' ↦ absurd (ground arith)
        | inr found ↦ (e, found.0, found.1)
      ]
    ]

    create-latest :
        (r : OperationalToolRequest)
        → (create tenant_id user_id tool_name arguments id now (begin d)).0 ≡ ok r
        → Any (IsRouted tenant_id tool_name now d r) d.connectors
    create-latest r h =
        let (allowed, c, found) = create-allowed (ap is_ok h) in
        let (there, newest) = chosen-latest c found in
        routed d.connectors c (ground (arith, create-ok allowed c found, h)) newest d.connectors
          there
      where
        routed :
            (all : List ManagedConnector) (c : ManagedConnector)
            → new_request tenant_id c user_id tool_name arguments id now ≡ r
            → All (λ x. p x ≡ true → is_fresh now x ≡ true → seen x ≤ seen c) all
            → (cs : List ManagedConnector) → Any (λ x. (p x ≡ true) × IsFor now c x) cs
            → Any
                (λ x.
                  Qualifies tenant_id tool_name now d x
                  × (r.connector_id ≡ x.id)
                  × All (λ y. p y ≡ true → is_fresh now y ≡ true → seen y ≤ seen x) all)
                cs
        routed all c e newest [] h = h
        routed all c e newest (x ∷ xs) (inr h) = inr (routed all c e newest xs h)
        routed all c e newest (x ∷ xs) (inl h) = inl (
          (h.0, h.1.0),
          ap (λ (q : OperationalToolRequest). q.connector_id) (sym e)
              ∙ ap (λ (q : ManagedConnector). q.id) (sym h.1.1),
          subst (λ z. All (λ y. p y ≡ true → is_fresh now y ≡ true → seen y ≤ seen z) all)
              (sym h.1.1) newest,
        )

    -- A request is created exactly when the tool is allowed and some connector of the tenant is not
    -- retired, connected, has the capability of the tool and was seen recently enough; the request
    -- is then for such a connector, than which no other such connector was seen later.
    pub create-IsRouted :
        ((is_ok (create tenant_id user_id tool_name arguments id now (begin d)).0 ≡ true) ↔ (
          (is_allowed tool_name ≡ true) × Any (Qualifies tenant_id tool_name now d) d.connectors))
        × ((r : OperationalToolRequest)
            → (create tenant_id user_id tool_name arguments id now (begin d)).0 ≡ ok r
            → Any (IsRouted tenant_id tool_name now d r) d.connectors)
    create-IsRouted = (
      (
        λ h.
            let (allowed, c, found) = create-allowed h in
            (allowed, qualifies c d.connectors (chosen-latest c found).0),
        λ h. let found = chosen-some h.1 in ap is_ok (create-ok h.0 found.0 found.1),
      ),
      create-latest,
    )
      where
        qualifies :
            (c : ManagedConnector) (cs : List ManagedConnector)
            → Any (λ x. (p x ≡ true) × IsFor now c x) cs
            → Any (Qualifies tenant_id tool_name now d) cs
        qualifies c [] h = h
        qualifies c (x ∷ xs) (inl h) = inl (h.0, h.1.0)
        qualifies c (x ∷ xs) (inr h) = inr (qualifies c xs h)
