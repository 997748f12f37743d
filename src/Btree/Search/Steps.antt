-- ===== src/Btree/Search/Steps.antt =====
-- The steps of `btree_lookup` on a page that it has fixed.
use wednesday.Base.{
  ℕ, ◌≤◌, ◌≡◌, ◌≢◌, ◌∙◌, refl, ap, store, store_at, store_other, store_back, sym, arith, Bool, true,
  false, Memory, Bool-cases, inl, inr,
}
use wednesday.Base.Outcome.{
  Outcome, ok, trapped, blocked, Result, success, failure, ◌>>=◌, >>=-step, enoent,
}
use wednesday.Blob.{Blob}
use wednesday.Pager.Types.{Page}
use wednesday.Btree.Layout.{
  cell_count, flags_of, page_is_leaf, page_get_payload, payload_get_value_ptr,
}
use wednesday.Btree.Page.{page_find_pointer}
use wednesday.Btree.Insert.{child_at}
use wednesday.Btree.World.{World, fix, unfix, page_bytes}
use wednesday.Btree.Lookup.{descend, lookup_leaf}
use wednesday.Btree.Search.{search_leaf}
use wednesday.Btree.Search.Pool.{
  Store, Pool, Calm, page_of, page_bytes-Pool, Pool-same, fix-Pool, unfix-Pool,
}

-- No page is fixed.
abbrev pub none_held : ℕ → Bool
none_held _ = false

-- One page is fixed.
abbrev pub one_held : ℕ → ℕ → Bool
one_held id = store none_held id true

module _ (s : Store) where
  -- The result of a search, with the frame of the page that it gives.
  abbrev pub in_frame : Result (ℕ × ℕ) → Result (Page × ℕ)
  in_frame (success (id, offset)) = success (page_of s id, offset)
  in_frame (failure code) = failure code

  -- The code ends as the search ends; where it returns, every page is back, and nobody has fixed it.
  abbrev pub Ends : Outcome (Result (ℕ × ℕ)) → Outcome (Result (Page × ℕ) × World) → Type 0
  Ends (ok r) m = (w' : World) × (m ≡ ok (in_frame r, w')) × Pool s w'.pager none_held
  Ends trapped m = m ≡ trapped
  Ends blocked m = m ≡ blocked

  pub Ends-same :
      {t t' : Outcome (Result (ℕ × ℕ))} {m m' : Outcome (Result (Page × ℕ) × World)}
      → t ≡ t'
      → m ≡ m'
      → Ends t' m'
      → Ends t m
  Ends-same e f ends = rw (e, f) ends

  module _ (w : World) (id : ℕ) (src : Memory) (key : Blob) (pool : Pool s w.pager (one_held id))
      (holds : s.Holds id) where
    -- The deferred unfix of the page that is fixed.
    unfix_last : (w' : World) × (unfix w (page_of s id) ≡ ok w') × Pool s w'.pager none_held
    unfix_last =
        let (w', e, calm, q) =
          unfix-Pool s w (one_held id) id pool holds (store_at none_held id true id refl) in
        (
          w',
          e,
          Pool-same s w'.pager _ none_held
              (λ j. ap (λ f. f j) (store_back none_held id true false refl)) q,
        )

    value_found :
        (value : Outcome ℕ)
        → Ends
            (do v ← value; ok (success (id, v)))
            (do v ← value; w₁ ← unfix w (page_of s id); ok (success (page_of s id, v), w₁))
    value_found trapped = refl
    value_found blocked = refl
    value_found (ok v) = let (w', e, q) = unfix_last in (w', >>=-step _ _ w' e refl, q)

    pub lookup_leaf-Ends :
        Ends (search_leaf (s.pages id) id src key) (lookup_leaf w (page_of s id) src key)
    unfolding lookup_leaf search_leaf
    lookup_leaf-Ends = elim (Bool-cases (page_find_pointer (s.pages id) src key.data_ptr).0) [
      | inl found ↦
          Ends-same {t' = do v ← value_at; ok (success (id, v))}
            {m' = do v ← value_at; w₁ ← unfix w (page_of s id); ok (success (page_of s id, v), w₁)}
            (rw (search_leaf, found) refl)
            (>>=-step (page_bytes w (page_of s id)) _ (s.pages id)
              (page_bytes-Pool s w (one_held id) id pool holds) (rw found refl))
            (value_found value_at)
      | inr missing ↦
          let (w', e, q) = unfix_last in
          Ends-same {t' = ok (failure enoent)}
            {m' = ok (failure enoent, record w' { error_code = enoent })}
            (rw (search_leaf, missing) refl)
            (>>=-step (page_bytes w (page_of s id)) _ (s.pages id)
              (page_bytes-Pool s w (one_held id) id pool holds)
              (rw missing (>>=-step _ _ w' e refl)))
            (record w' { error_code = enoent }, refl, q)
    ]
      where
        value_at : Outcome ℕ
        value_at =
            payload_get_value_ptr (flags_of (s.pages id)) (s.pages id)
              (page_get_payload (s.pages id) (page_find_pointer (s.pages id) src key.data_ptr).1)

  -- Every child of an inner page of the set is a page of the set, and not the page itself.
  abbrev pub IsClosed : Type 0
  IsClosed =
      (id index : ℕ)
      → s.Holds id
      → page_is_leaf (flags_of (s.pages id)) ≡ false
      → index ≤ cell_count (s.pages id)
      → child_at (s.pages id) index ≢ 0
      → s.Holds (child_at (s.pages id) index) × (child_at (s.pages id) index ≢ id)

  -- The rest of `btree_lookup` from a page that is fixed.
  abbrev pub look_from : ℕ → World → ℕ → Memory → Blob → Outcome (Result (Page × ℕ) × World)
  look_from depth w id src key = do
    (r, w₁) ← descend depth w (page_of s id) src key
    elim r [ failure code ↦ ok (failure code, w₁) | success leaf ↦ lookup_leaf w₁ leaf src key ]

  -- The child is fixed before its parent is unfixed.
  pub fix_child :
      (w : World) (id child : ℕ)
      → Pool s w.pager (one_held id)
      → s.Holds id
      → s.Holds child
      → child ≢ id
      → (w₁ : World) × (w₂ : World) × (fix w child ≡ ok (success (page_of s child), w₁))
        × (unfix w₁ (page_of s id) ≡ ok w₂)
        × Pool s w₁.pager (store (one_held id) child true)
        × Calm w w₁
        × Calm w₁ w₂
        × Pool s w₂.pager (one_held child)
  fix_child w id child pool holds below other =
      let (w₁, e₁, calm₁, q₁) =
        fix-Pool s w (one_held id) child pool below (store_other none_held id true child other) in
      let (w₂, e₂, calm₂, q₂) = unfix-Pool s w₁ (store (one_held id) child true) id q₁ holds (
        store_other (one_held id) child true id (λ e. other (sym e))
        ∙ store_at none_held id true id refl) in
      (
        w₁,
        w₂,
        e₁,
        e₂,
        q₁,
        calm₁,
        calm₂,
        Pool-same s w₂.pager _ (one_held child) (λ j. ground arith) q₂,
      )
