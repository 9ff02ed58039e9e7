-- ===== src/Storage/Overlay.antt =====
-- What the updates of storage/db.go leave in a database whose calls do not fail: the entries they set, the
-- last one of a key, over what was there.
use hs_blockchain.Prelude.{
  ◌≡◌, ◌∙◌, refl, ap, false, Option, none, some, List, [], ◌∷◌, ◌++◌, Bytes, bytes_eq,
  if◌then◌else◌, All, map,
}
use hs_blockchain.Storage.Database.{
  Badger, IsDatabase, IsReliable, UpdateFunc, done, run_updates, update_badger_db,
}

-- A key and its value; `none` is an update that sets nothing.
abbrev pub Entry : Type 0
Entry = Option (Bytes × Bytes)

-- What a key has after the entries are set.
unfoldable pub overlay : Bytes → List Entry → Option Bytes → Option Bytes
overlay j [] x = x
overlay j (none ∷ es) x = overlay j es x
overlay j (some (k, v) ∷ es) x = overlay j es (if bytes_eq k j then some v else x)

pub overlay-append :
    (j : Bytes) (es fs : List Entry) (x : Option Bytes)
    → overlay j (es ++ fs) x ≡ overlay j fs (overlay j es x)
unfolding overlay
overlay-append j [] fs x = refl
overlay-append j (none ∷ es) fs x = overlay-append j es fs x
overlay-append j (some (k, v) ∷ es) fs x =
    overlay-append j es fs (if bytes_eq k j then some v else x)

-- The entries do not set the key.
abbrev pub Avoids : Bytes → List Entry → Type 0
Avoids j = All (λ e. elim e [ none ↦ Unit {0} | some kv ↦ bytes_eq kv.0 j ≡ false ])

pub overlay-Avoids :
    (j : Bytes) (es : List Entry) (x : Option Bytes) → Avoids j es → overlay j es x ≡ x
unfolding overlay
overlay-Avoids j [] x a = refl
overlay-Avoids j (none ∷ es) x a = overlay-Avoids j es x a.1
overlay-Avoids j (some (k, v) ∷ es) x a = rw a.0 (overlay-Avoids j es x a.1)

module _ {D : Type 0} (db : Badger D) where
  -- An update that sets one entry.
  abbrev pub Sets : UpdateFunc D → Entry → Type 0
  Sets fn none = (d : D) → fn d ≡ some d
  Sets fn (some (k, v)) = (d : D) → fn d ≡ db.set k v d

  abbrev pub AllSets : List (UpdateFunc D) → List Entry → Type 0
  AllSets [] [] = Unit
  AllSets (fn ∷ fns) (e ∷ es) = Sets fn e × AllSets fns es
  AllSets _ _ = ⊥

  pub AllSets-append :
      (fns gns : List (UpdateFunc D)) (es fs : List Entry)
      → AllSets fns es
      → AllSets gns fs
      → AllSets (fns ++ gns) (es ++ fs)
  AllSets-append [] gns [] fs a b = b
  AllSets-append (fn ∷ fns) gns (e ∷ es) fs a b = (a.0, AllSets-append fns gns es fs a.1 b)
  AllSets-append [] gns (e ∷ es) fs a b = absurd a
  AllSets-append (fn ∷ fns) gns [] fs a b = absurd a

  pub AllSets-map {ℓ} :
      {A : Type ℓ} (f : A → UpdateFunc D) (e : A → Entry) (xs : List A)
      → ((x : A) → Sets (f x) (e x))
      → AllSets (map f xs) (map e xs)
  AllSets-map f e [] h = tt
  AllSets-map f e (x ∷ xs) h = (h x, AllSets-map f e xs h)

  module _ (lawful : IsDatabase db) (reliable : IsReliable db) where
    run_updates-overlay :
        (fns : List (UpdateFunc D)) (es : List Entry) (d : D)
        → AllSets fns es
        → (d' : D) × (run_updates db fns d ≡ some d')
          × ((j : Bytes) → db.get j d' ≡ overlay j es (db.get j d))
    unfolding run_updates overlay
    run_updates-overlay [] [] d a = (d, refl, λ j. refl)
    run_updates-overlay [] (e ∷ es) d a = absurd a
    run_updates-overlay (fn ∷ fns) [] d a = absurd a
    run_updates-overlay (fn ∷ fns) (none ∷ es) d a =
        let (d', runs, gets) = run_updates-overlay fns es d a.1 in
        (d', rw (run_updates, a.0 d) runs, gets)
    run_updates-overlay (fn ∷ fns) (some (k, v) ∷ es) d a =
        let (d₁, set) = reliable.sets k v d in
        let (d', runs, gets) = run_updates-overlay fns es d₁ a.1 in
        (
          d',
          rw (run_updates, a.0 d ∙ set) runs,
          λ j. gets j ∙ ap (overlay j es) (lawful.get_set k v j d d₁ set),
        )

    pub update_badger_db-overlay :
        (fns : List (UpdateFunc D)) (es : List Entry) (d : D)
        → AllSets fns es
        → (d' : D) × (update_badger_db db fns d ≡ done d')
          × ((j : Bytes) → db.get j d' ≡ overlay j es (db.get j d))
    unfolding update_badger_db
    update_badger_db-overlay fns es d a =
        let (d₁, runs, gets) = run_updates-overlay fns es d a in
        let (d', commits) = reliable.commits d₁ in
        (
          d',
          rw (update_badger_db, runs, commits) refl,
          λ j. lawful.get_commit j d₁ d' commits ∙ gets j,
        )
