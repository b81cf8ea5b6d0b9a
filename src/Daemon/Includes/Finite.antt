-- ===== src/Daemon/Includes/Finite.antt =====
-- pkg/tuned/tuned_parser.go: profileDependsLoop returns, where there are finitely many profiles.
use cluster_node_tuning_oper.Base.{
  if◌then◌else◌, Eq, ◌≡◌, ℕ, zero, suc, refl, ◌<◌, ◌≤◌, ◌+◌, Option, some, none, List, [], ◌∷◌, ◌↔◌,
  Bool, length, ◌≢◌, arith, false, true, Bool-cases, Option-cases, inl, inr,
}
use cluster_node_tuning_oper.Base.Dict.{Dict, lookup, insert}
use cluster_node_tuning_oper.Daemon.Includes.{
  Depends, found, is_set, depends_scan, profile_depends, profile_depends_loop, and_then,
}
use cluster_node_tuning_oper.Daemon.Includes.Reach.{is_set-insert, DependsOn, profile_depends_iff}
use mathlib.Core.List.{Memᴰ}

module _ {ℓ} {A : Type ℓ} ⦃e : Eq A⦄ where
  -- How many of the profiles are not in the map.
  abbrev unset : List A → Dict A Bool → ℕ
  unset [] s = 0
  unset (u ∷ us) s = (if is_set u s then 0 else 1) + unset us s

  unset-insert : (us : List A) (p : A) (s : Dict A Bool) → unset us (insert p true s) ≤ unset us s
  unset-insert [] p s = omega arith
  unset-insert (u ∷ us) p s = ground (arith, is_set-insert u p s, unset-insert us p s)

  unset-insert_lt :
      (us : List A) (p : A) (s : Dict A Bool)
      → Memᴰ p us
      → is_set p s ≡ false
      → unset us (insert p true s) < unset us s
  unset-insert_lt [] p s m h = elim m [ ]
  unset-insert_lt (u ∷ us) p s (Memᴰ.head q) h =
      ground (arith, is_set-insert u p s, unset-insert us p s)
  unset-insert_lt (u ∷ us) p s (Memᴰ.tail m) h =
      ground (arith, is_set-insert u p s, unset-insert_lt us p s m h)

  unset-nil : (us : List A) → unset us [] ≤ length us
  unfolding is_set lookup
  unset-nil [] = omega arith
  unset-nil (u ∷ us) = omega (arith, unset-nil us)

module _ {ℓ} {A : Type ℓ} ⦃e : Eq A⦄ (includes : A → Option (List A)) where
  module _ (us : List A) where
    abbrev Returns : Depends A → Dict A Bool → Type ℓ
    Returns d s = (t : Dict A Bool) × (d ≡ found t) × (unset us t ≤ unset us s)

    scan-Returns :
        (call : A → Dict A Bool → Depends A) (n : ℕ)
        → ((u : A) (s : Dict A Bool) → unset us s < n → Returns (call u s) s)
        → (vs : List A) (s : Dict A Bool) → ((v : A) → Memᴰ v vs → Memᴰ v us)
        → unset us s ≤ n
        → Returns (depends_scan call vs s) s
    unfolding depends_scan and_then
    scan-Returns call n h [] s inside le = (s, refl, omega arith)
    scan-Returns call n h (p ∷ ps) s inside le = elim (Bool-cases (is_set p s)) [
      | inl old ↦
          rw (old, depends_scan) (scan-Returns call n h ps s (λ v m. inside v (Memᴰ.tail m)) le)
      | inr new ↦
          let less = unset-insert_lt us p s (inside p (Memᴰ.head refl)) new in
          let (m, first, le1) = h p (insert p true s) (omega arith) in
          let (t, rest, le2) =
            scan-Returns call n h ps m (λ v m. inside v (Memᴰ.tail m)) (omega arith) in
          (t, rw (new, depends_scan) (rw (first, and_then) rest), omega arith)
    ]

    module _ (total : (u : A) → includes u ≢ none)
        (closed : (u : A) (vs : List A)
          → includes u ≡ some vs
          → (v : A) → Memᴰ v vs
          → Memᴰ v us) where
      loop-Returns :
          (fuel : ℕ) (u : A) (s : Dict A Bool)
          → unset us s < fuel
          → Returns (profile_depends_loop includes fuel u s) s
      unfolding profile_depends_loop
      loop-Returns zero u s lt = absurd (omega arith)
      loop-Returns (suc fuel) u s lt = elim (Option-cases (includes u)) [
        | inl none_at ↦ absurd (total u none_at)
        | inr (vs, some_at) ↦
            rw (some_at, profile_depends_loop)
              (scan-Returns (profile_depends_loop includes fuel) fuel (loop-Returns fuel) vs s
                (closed u vs some_at) (omega arith))
      ]

  -- With fuel for all profiles, the search returns the map of exactly those that includes lead to.
  pub profile_depends-total :
      (us : List A)
      → ((u : A) → includes u ≢ none)
      → ((u : A) (vs : List A) → includes u ≡ some vs → (v : A) → Memᴰ v vs → Memᴰ v us)
      → (name : A)
      → (t : Dict A Bool) × (profile_depends includes (suc (length us)) name ≡ found t)
        × ((v : A) → (is_set v t ≡ true) ↔ DependsOn includes name v)
  unfolding profile_depends
  profile_depends-total us total closed name =
      let (t, eq, _) =
        loop-Returns us total closed (suc (length us)) name [] (omega (arith, unset-nil us)) in
      (t, eq, profile_depends_iff includes (suc (length us)) name t eq)
