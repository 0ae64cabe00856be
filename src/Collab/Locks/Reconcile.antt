-- ===== src/Collab/Locks/Reconcile.antt =====
-- What `validateReconcileMonthRange` establishes, against a description with no loop.
use notebortt_backend.Collab.Mutation.{reconcile_month_range}
use notebortt_backend.Common.{
  ℕ, ◌+◌, String, ◌≡◌, refl, ap, ◌∙◌, ◌⊎◌, inl, inr, true, false, Option, some, List, [], ◌∷◌, map,
  arith, ◌==◌, eq_iff, if◌then◌else◌, Option-cases, All, none, ◌↔◌, ◌↔◌,
}
use notebortt_backend.Common.Keys.{has, add, add_all, has-add_all}
use notebortt_backend.Collab.Element.{BoardElement, text_field}
use notebortt_backend.Collab.Locks.{
  Checked, refused, passed, is_managed, in_meta, check_upsert, check_upserts, LockContext,
  check_deletes, strays, meta_ok, check_delete, check_reconcile, validate_reconcile_month_range,
  reason, is_empty,
}

-- No text twice, and none of them in `seen`.
abbrev Fresh : List String → List String → Type 0
Fresh seen [] = Unit {0}
Fresh seen (x ∷ xs) = (has x seen ≡ false) × Fresh (add x seen) xs

-- The element is the managed meta itself, or is contained in it.
abbrev Belongs : String → BoardElement → Type 0
Belongs meta_id element =
    (id : String) × (text_field "id" element ≡ some id)
    × (((id ≡ meta_id) × (is_managed element ≡ true))
        ⊎ (((id == meta_id) ≡ false) × (in_meta meta_id element ≡ true)))

-- How often a text stands in a list.
abbrev pub count : String → List String → ℕ
count k [] = 0
count k (x ∷ xs) = (if x == k then 1 else 0) + count k xs

abbrev ids_of : List BoardElement → List (Option String)
ids_of = map (text_field "id")

-- `Belongs`, for the identifier that the element has.
abbrev Placed : String → String → BoardElement → Type 0
Placed meta_id id e =
    ((id ≡ meta_id) × (is_managed e ≡ true))
    ⊎ (((id == meta_id) ≡ false) × (in_meta meta_id e ≡ true))

abbrev hit : String → String → ℕ
hit meta_id id = if id == meta_id then 1 else 0

check_upsert-passed :
    (meta_id : String) (e : BoardElement) (ids : List String) (n : ℕ) (r : List String × ℕ)
    → check_upsert meta_id e (ids, n) ≡ passed r
    → (id : String) × (text_field "id" e ≡ some id)
      × (has id ids ≡ false)
      × Placed meta_id id e
      × (r ≡ (add id ids, n + hit meta_id id))
unfolding check_upsert
check_upsert-passed meta_id e ids n r h = elim (Option-cases (text_field "id" e)) [
  | inl missing ↦ ground arith
  | inr (id, found) ↦ (
    id,
    found,
    ground (arith, eq_iff id meta_id),
    ground (arith, eq_iff id meta_id),
    ground (arith, eq_iff id meta_id),
  )
]

check_upsert-pass :
    (meta_id : String) (e : BoardElement) (ids : List String) (n : ℕ) (id : String)
    → text_field "id" e ≡ some id
    → has id ids ≡ false
    → Placed meta_id id e
    → check_upsert meta_id e (ids, n) ≡ passed (add id ids, n + hit meta_id id)
unfolding check_upsert
check_upsert-pass meta_id e ids n id found new placed = ground (arith, eq_iff id meta_id)

Checked-cases {ℓ} :
    {A : Type ℓ} (c : Checked A) → ((r : String) × (c ≡ refused r)) ⊎ ((a : A) × (c ≡ passed a))
Checked-cases (refused r) = inl (r, refl)
Checked-cases (passed a) = inr (a, refl)

check_upserts-passed :
    (meta_id : String) (es : List BoardElement) (seen : List String) (n : ℕ) (r : List String × ℕ)
    → check_upserts meta_id es (seen, n) ≡ passed r
    → (ids : List String) × (ids_of es ≡ map some ids)
      × Fresh seen ids
      × All (Belongs meta_id) es
      × (r ≡ (add_all ids seen, n + count meta_id ids))
unfolding check_upserts add_all
check_upserts-passed meta_id [] seen n r h = ([], refl, tt, tt, ground arith)
check_upserts-passed meta_id (e ∷ es) seen n r h =
    elim (Checked-cases (check_upsert meta_id e (seen, n))) [
      | inl (reason, stop) ↦ absurd (ground arith)
      | inr (next, go) ↦
          let (id, found, new, placed, next_is) = check_upsert-passed meta_id e seen n next go in
          let (ids, found', fresh, belong, r_is) =
            check_upserts-passed meta_id es (add id seen) (n + hit meta_id id) r (ground arith) in
          (id ∷ ids, cc, (new, fresh), ((id, found, placed), belong), ground arith)
    ]

check_upserts-pass :
    (meta_id : String) (es : List BoardElement) (ids seen : List String) (n : ℕ)
    → ids_of es ≡ map some ids
    → Fresh seen ids
    → All (Belongs meta_id) es
    → check_upserts meta_id es (seen, n) ≡ passed (add_all ids seen, n + count meta_id ids)
unfolding check_upserts add_all
check_upserts-pass meta_id [] [] seen n h f b = ground arith
check_upserts-pass meta_id [] (i ∷ ids) seen n h f b = cc
check_upserts-pass meta_id (e ∷ es) [] seen n h f b = cc
check_upserts-pass meta_id (e ∷ es) (i ∷ ids) seen n h f ((id, found, placed), bs) =
    let same : id ≡ i = cc in
    let first = check_upsert-pass meta_id e seen n i (cc) f.0 (rw same at placed) in
    rw first (
      check_upserts-pass meta_id es ids (add i seen) (n + hit meta_id i) (cc) f.1 bs
      ∙ ap (λ k. passed (add_all ids (add i seen), k)) (omega arith))

-- What a delete has to satisfy, apart from its being named once.
abbrev MayGo : LockContext → String → List String → String → Type 0
MayGo context meta_id upsert_ids d =
    ((d == meta_id) ≡ false) × (has d upsert_ids ≡ false) × (strays context meta_id d ≡ false)

module _ (context : LockContext) (meta_id : String) (upsert_ids : List String) where
  check_delete-passed :
      (d : String) (seen r : List String)
      → check_delete context meta_id upsert_ids d seen ≡ passed r
      → (has d seen ≡ false) × MayGo context meta_id upsert_ids d × (r ≡ add d seen)
  unfolding check_delete
  check_delete-passed d seen r h = ground arith

  check_delete-pass :
      (d : String) (seen : List String)
      → has d seen ≡ false
      → MayGo context meta_id upsert_ids d
      → check_delete context meta_id upsert_ids d seen ≡ passed (add d seen)
  unfolding check_delete
  check_delete-pass d seen new m = ground arith

  check_deletes-passed :
      (ds seen r : List String)
      → check_deletes context meta_id upsert_ids ds seen ≡ passed r
      → Fresh seen ds × All (MayGo context meta_id upsert_ids) ds
  unfolding check_deletes
  check_deletes-passed [] seen r h = (tt, tt)
  check_deletes-passed (d ∷ ds) seen r h =
      elim (Checked-cases (check_delete context meta_id upsert_ids d seen)) [
        | inl (reason, stop) ↦ absurd (ground arith)
        | inr (next, go) ↦
            let (new, may, next_is) = check_delete-passed d seen next go in
            let (fresh, mays) = check_deletes-passed ds (add d seen) r (ground arith) in
            ((new, fresh), (may, mays))
      ]

  check_deletes-pass :
      (ds seen : List String)
      → Fresh seen ds
      → All (MayGo context meta_id upsert_ids) ds
      → check_deletes context meta_id upsert_ids ds seen ≡ passed (add_all ds seen)
  unfolding check_deletes add_all
  check_deletes-pass [] seen f m = refl
  check_deletes-pass (d ∷ ds) seen f m =
      rw (check_delete-pass d seen f.0 m.0) (check_deletes-pass ds (add d seen) f.1 m.1)

-- A self-consistent reconcile: named upserts, each once, with the managed meta itself exactly once
-- and everything else contained in it; deletes named once, apart from the upserts and the meta,
-- and contained in the meta where they exist; and the meta, where it exists, a managed range.
pub record IsConsistent (context : LockContext) (meta_id : String) (upserts : List BoardElement)
    (deletes : List String) : Type 0 where
  pub managed : meta_ok context meta_id ≡ true
  pub ids : List String
  pub named : ids_of upserts ≡ map some ids
  pub once : Fresh [] ids
  pub meta_once : count meta_id ids ≡ 1
  pub belong : All (Belongs meta_id) upserts
  pub deleted_once : Fresh [] deletes
  pub may_go : All (MayGo context meta_id ids) deletes

has-set : (d : String) (ids : List String) → has d (add_all ids []) ≡ has d ids
unfolding has
has-set d ids = ground (arith, has-add_all ids d [])

module _ (context : LockContext) (meta_id : String) (ids : List String) where
  MayGo-set :
      (ds : List String)
      → All (MayGo context meta_id (add_all ids [])) ds
      → All (MayGo context meta_id ids) ds
  MayGo-set [] m = tt
  MayGo-set (d ∷ ds) ((a, b, c), m) = ((a, rw (has-set d ids) at b, c), MayGo-set ds m)

  MayGo-unset :
      (ds : List String)
      → All (MayGo context meta_id ids) ds
      → All (MayGo context meta_id (add_all ids [])) ds
  MayGo-unset [] m = tt
  MayGo-unset (d ∷ ds) ((a, b, c), m) = ((a, rw (has-set d ids) b, c), MayGo-unset ds m)

is_empty-false :
    (meta_id : String) (es : List BoardElement) (ids : List String)
    → ids_of es ≡ map some ids
    → count meta_id ids ≡ 1
    → is_empty es ≡ false
is_empty-false meta_id [] [] named once = absurd (omega arith)
is_empty-false meta_id [] (i ∷ ids) named once = cc
is_empty-false meta_id (e ∷ es) ids named once = refl

reason-none : (c : Checked (List String)) → reason c ≡ none → (r : List String) × (c ≡ passed r)
reason-none (refused _) h = cc
reason-none (passed r) h = (r, refl)

module _ (context : LockContext) (meta_id : String) (upserts : List BoardElement)
    (deletes : List String) where
  check_reconcile-passed :
      (r : List String)
      → check_reconcile context meta_id upserts deletes ≡ passed r
      → IsConsistent context meta_id upserts deletes
  unfolding check_reconcile
  check_reconcile-passed r h = elim (Checked-cases (check_upserts meta_id upserts ([], 0))) [
    | inl (reason, stop) ↦ absurd (ground arith)
    | inr (counted, go) ↦
        let (ids, named, fresh, belong, counted_is) =
          check_upserts-passed meta_id upserts [] 0 counted go in
        let (deleted, may) =
          check_deletes-passed context meta_id (add_all ids []) deletes [] r (ground arith) in
        record {
          managed = ground arith;
          ids = ids;
          named = named;
          once = fresh;
          meta_once = ground arith;
          belong = belong;
          deleted_once = deleted;
          may_go = MayGo-set context meta_id ids deletes may;
        }
  ]

  check_reconcile-pass :
      IsConsistent context meta_id upserts deletes
      → check_reconcile context meta_id upserts deletes ≡ passed (add_all deletes [])
  unfolding check_reconcile
  check_reconcile-pass c = ground (
    arith,
    is_empty-false meta_id upserts c.ids c.named c.meta_once,
    check_upserts-pass meta_id upserts c.ids [] 0 c.named c.once c.belong,
    check_deletes-pass context meta_id (add_all c.ids []) deletes [] c.deleted_once
        (MayGo-unset context meta_id c.ids deletes c.may_go),
  )

-- A month-range reconcile passes validation exactly when it is self-consistent.
pub validate_reconcile_month_range_iff :
    (context : LockContext) (meta_id : String) (upserts : List BoardElement) (deletes : List String)
    → (validate_reconcile_month_range (reconcile_month_range meta_id upserts deletes) context
        ≡ none)
      ↔ IsConsistent context meta_id upserts deletes
unfolding validate_reconcile_month_range
validate_reconcile_month_range_iff context meta_id upserts deletes = (
  λ h. let (r, e) = reason-none _ h in check_reconcile-passed context meta_id upserts deletes r e,
  λ c. rw (check_reconcile-pass context meta_id upserts deletes c),
)
