-- ===== src/Daemon/Includes/Reach.antt =====
-- pkg/tuned/tuned_parser.go: the search of profileDependsLoop finds what is reachable.
use cluster_node_tuning_oper.Base.{
  [], ◌∷◌, if◌then◌else◌, Eq, ◌≡◌, ℕ, ◌==◌, zero, suc, refl, Option, List, some, Bool, false, true,
  ◌∷◌, Bool-cases, arith, inl, inr, Option-cases, subst, ◌⊎◌, ◌∙◌, sym, ◌↔◌,
}
use cluster_node_tuning_oper.Daemon.Includes.{
  Depends, found, panics, out_of_fuel, is_set, profile_depends_loop, and_then, depends_scan,
  profile_depends,
}
use cluster_node_tuning_oper.Base.Dict.{Dict, lookup, insert, lookup-insert}
use mathlib.Core.List.Memᴰ
use mathlib.Core.List.{Memᴰ}
use mathlib.Core.Option.{some-injective}

module _ {ℓ} {A : Type ℓ} ⦃e : Eq A⦄ where
  pub eq_of_equal : (a b : A) → (a == b) ≡ true → a ≡ b
  eq_of_equal a b h = ground arith

  pub is_set-insert :
      (j k : A) (m : Dict A Bool)
      → is_set j (insert k true m) ≡ (if j == k then true else is_set j m)
  unfolding is_set
  is_set-insert j k m = ground (arith, lookup-insert j k true m)

module _ {ℓ} {A : Type ℓ} ⦃e : Eq A⦄ (includes : A → Option (List A)) where
  -- `v` is one of the profiles that `u` includes.
  abbrev pub Included : A → A → Type ℓ
  Included u v = (vs : List A) × (includes u ≡ some vs) × Memᴰ v vs

  -- One or more steps lead from the profile to another.
  pub data DependsOn (name : A) : A → Type ℓ where
    direct : {v : A} → Included name v → DependsOn name v
    further : {u v : A} → DependsOn name u → Included u v → DependsOn name v

  if_equal : (a b : A) (x y : Bool) → a ≡ b → (if a == b then x else y) ≡ x
  if_equal a b x y q = ground arith

  -- What a search keeps of the map, and adds to it.
  record Post (from : A → Type ℓ) (seen seen' : Dict A Bool) : Type ℓ where
    kept : (v : A) → is_set v seen ≡ true → is_set v seen' ≡ true
    added : (v : A) → from v → is_set v seen' ≡ true
    closed :
        (u v : A)
        → is_set u seen' ≡ true
        → is_set u seen ≡ false
        → Included u v
        → is_set v seen' ≡ true

  found-injective : (s t : Dict A Bool) → found s ≡ found t → s ≡ t
  found-injective s t h = cc

  and_then-eq_found :
      (d : Depends A) (f : Dict A Bool → Depends A) (t : Dict A Bool)
      → and_then d f ≡ found t
      → (m : Dict A Bool) × (d ≡ found m) × (f m ≡ found t)
  unfolding and_then
  and_then-eq_found (found m) f t h = (m, refl, h)
  and_then-eq_found panics f t h = cc
  and_then-eq_found out_of_fuel f t h = cc

  module _ (p : A) (ps : List A) (s m t : Dict A Bool) where
    -- One profile that is new, and those behind it.
    Post-cons :
        is_set p s ≡ false
        → Post (Included p) (insert p true s) m
        → Post (λ v. Memᴰ v ps) m t
        → Post (λ v. Memᴰ v (p ∷ ps)) s t
    Post-cons fresh a b = record {
      kept = λ v h. b.kept v (a.kept v (ground (arith, is_set-insert v p s)));
      added = λ v q. after_head v (Memᴰ.cases_cons q);
      closed = λ u v q n i. elim (Bool-cases (is_set u m)) [
        | inl old ↦ b.kept v (elim (Bool-cases (u == p)) [
          | inl same ↦ a.added v (subst (λ w. Included w v) (eq_of_equal u p same) i)
          | inr other ↦ a.closed u v old (ground (arith, is_set-insert u p s)) i
        ])
        | inr new ↦ b.closed u v q new i
      ];
    }
      where
        after_head : (v : A) → (v ≡ p) ⊎ Memᴰ v ps → is_set v t ≡ true
        after_head v (inl q) =
            b.kept v (a.kept v (is_set-insert v p s ∙ if_equal v p true (is_set v s) q))
        after_head v (inr q) = b.added v q

  scan-Post :
      (call : A → Dict A Bool → Depends A)
      → ((u : A) (s t : Dict A Bool) → call u s ≡ found t → Post (Included u) s t)
      → (vs : List A) (s t : Dict A Bool) → depends_scan call vs s ≡ found t
      → Post (λ v. Memᴰ v vs) s t
  unfolding depends_scan
  scan-Post call h [] s t eq = record {
    kept = λ v h. subst (λ (m : Dict A Bool). is_set v m ≡ true) (found-injective s t eq) h;
    added = λ v m. absurd (Memᴰ.not-nil m);
    closed = λ u v q n i. cc (found-injective s t eq);
  }
  scan-Post call h (p ∷ ps) s t eq = elim (Bool-cases (is_set p s)) [
    | inl old ↦
        let b = scan-Post call h ps s t (rw (old, depends_scan) at eq) in
        record {
          kept = b.kept;
          added =
              λ v q. elim (Memᴰ.cases_cons q) [ inl e ↦ rw e (b.kept p old) | inr m ↦ b.added v m ];
          closed = b.closed;
        }
    | inr new ↦
        let (m, first, rest) =
          and_then-eq_found (call p (insert p true s)) (depends_scan call ps) t
            (rw (new, depends_scan) at eq) in
        Post-cons p ps s m t new (h p (insert p true s) m first) (scan-Post call h ps m t rest)
  ]

  loop-Post :
      (fuel : ℕ) (u : A) (s t : Dict A Bool)
      → profile_depends_loop includes fuel u s ≡ found t
      → Post (Included u) s t
  unfolding profile_depends_loop
  loop-Post zero u s t eq = cc
  loop-Post (suc fuel) u s t eq = elim (Option-cases (includes u)) [
    | inl none_at ↦ let bad = (rw (none_at, profile_depends_loop) at eq) in cc
    | inr (vs, some_at) ↦
        let b =
          scan-Post (profile_depends_loop includes fuel) (loop-Post fuel) vs s t
            (rw (some_at, profile_depends_loop) at eq) in
        record {
          kept = b.kept;
          added =
              λ v (us, q, m). b.added v (subst (Memᴰ v) (some-injective us vs (sym q ∙ some_at)) m);
          closed = b.closed;
        }
  ]

  DependsOn-start : (name u v : A) → Included name u → DependsOn u v → DependsOn name v
  DependsOn-start name u v i (direct j) = further (direct i) j
  DependsOn-start name u v i (further {u = w} d j) = further (DependsOn-start name u w i d) j

  abbrev Sound : (name : A) → Dict A Bool → Type ℓ
  Sound name s = (v : A) → is_set v s ≡ true → DependsOn name v

  module _ (name : A) where
    scan-Sound :
        (call : A → Dict A Bool → Depends A)
        → ((u : A) (s t : Dict A Bool)
            → call u s ≡ found t
            → DependsOn name u
            → Sound name s
            → Sound name t)
        → (vs : List A) (s t : Dict A Bool) → depends_scan call vs s ≡ found t
        → ((v : A) → Memᴰ v vs → DependsOn name v)
        → Sound name s
        → Sound name t
    unfolding depends_scan
    scan-Sound call h [] s t eq d sound = subst (Sound name) (found-injective s t eq) sound
    scan-Sound call h (p ∷ ps) s t eq d sound = elim (Bool-cases (is_set p s)) [
      | inl old ↦
          scan-Sound call h ps s t (rw (old, depends_scan) at eq) (λ v m. d v (Memᴰ.tail m)) sound
      | inr new ↦
          let (m, first, rest) =
            and_then-eq_found (call p (insert p true s)) (depends_scan call ps) t
              (rw (new, depends_scan) at eq) in
          let here = d p (Memᴰ.head refl) in
          let sound' = Sound-insert p s here sound in
          scan-Sound call h ps m t rest (λ v m. d v (Memᴰ.tail m))
            (h p (insert p true s) m first here sound')
    ]
      where
        Sound-insert :
            (p : A) (s : Dict A Bool)
            → DependsOn name p
            → Sound name s
            → Sound name (insert p true s)
        Sound-insert p s here sound v h = elim (Bool-cases (v == p)) [
          | inl same ↦ subst (DependsOn name) (sym (eq_of_equal v p same)) here
          | inr other ↦ sound v (ground (arith, is_set-insert v p s))
        ]

    loop-Sound :
        (fuel : ℕ) (u : A) (s t : Dict A Bool)
        → profile_depends_loop includes fuel u s ≡ found t
        → ((v : A) → Included u v → DependsOn name v)
        → Sound name s
        → Sound name t
    unfolding profile_depends_loop
    loop-Sound zero u s t eq d sound = cc
    loop-Sound (suc fuel) u s t eq d sound = elim (Option-cases (includes u)) [
      | inl none_at ↦ let bad = (rw (none_at, profile_depends_loop) at eq) in cc
      | inr (vs, some_at) ↦
          scan-Sound (profile_depends_loop includes fuel)
            (λ u s t h here. loop-Sound fuel u s t h (λ v i. further here i)) vs s t
            (rw (some_at, profile_depends_loop) at eq) (λ v m. d v (vs, some_at, m)) sound
    ]

  -- The map holds exactly the profiles that one or more includes lead to, where it is found.
  pub profile_depends_iff :
      (fuel : ℕ) (name : A) (t : Dict A Bool)
      → profile_depends includes fuel name ≡ found t
      → (v : A) → (is_set v t ≡ true) ↔ DependsOn name v
  unfolding profile_depends
  profile_depends_iff fuel name t eq v = (
    loop-Sound name fuel name [] t eq (λ w i. direct i) (λ w h. absurd (none_set w h)) v,
    complete v,
  )
    where
      none_set : (w : A) → is_set w [] ≡ true → ⊥
      none_set w h = unfold is_set in unfold lookup in cc

      none_unset : (w : A) → is_set w [] ≡ false
      none_unset w = unfold is_set in unfold lookup in refl

      post : Post (Included name) [] t
      post = loop-Post fuel name [] t eq

      complete : (v : A) → DependsOn name v → is_set v t ≡ true
      complete v (direct i) = post.added v i
      complete v (further {u} d i) = post.closed u v (complete u d) (none_unset u) i
