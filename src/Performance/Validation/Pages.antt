-- ===== src/Performance/Validation/Pages.antt =====
-- pkg/apis/performanceprofile/v2/performanceprofile_validation.go: which huge pages pass validation.
use cluster_node_tuning_oper.Base.{
  String, ℕ, Bool, true, false, Option, none, some, List, [], ◌∷◌, ◌++◌, ◌&&◌, string_eq, nat_eq,
  option_eq, ◌≡◌, ◌≢◌, refl, ◌↔◌, arith, All, Bool-cases, inl, inr, ◌⊎◌, ap,
}
use cluster_node_tuning_oper.Performance.Types.{HugePage, HugePages, FieldErr}
use cluster_node_tuning_oper.Performance.Validation.Fields.{
  is_page_size, page_duplicates, validate_page_duplication, validate_pages, validate_huge_pages,
}

-- Two pages differ in their size or in their NUMA node, where no node differs from any.
abbrev pub Differ : HugePage → HugePage → Type 0
Differ p q = (p.size ≢ q.size) ⊎ (p.node ≢ q.node)

abbrev pub PairwiseDiffer : List HugePage → Type 0
PairwiseDiffer [] = Unit
PairwiseDiffer (p ∷ ps) = All (Differ p) ps × PairwiseDiffer ps

abbrev pub AllowedSize : HugePage → Type 0
AllowedSize p = (p.size ≡ "1G") ⊎ (p.size ≡ "2M")

abbrev no_errors : List FieldErr → Bool
no_errors [] = true
no_errors (_ ∷ _) = false

no_errors-append : (a b : List FieldErr) → no_errors (a ++ b) ≡ (no_errors a && no_errors b)
no_errors-append [] b = refl
no_errors-append (x ∷ a) b = refl

no_errors-nil : (a : List FieldErr) → no_errors a ≡ true → a ≡ []
no_errors-nil [] h = refl
no_errors-nil (x ∷ a) h = cc

page_duplicates-Differ : (p q : HugePage) → (no_errors (page_duplicates p q) ≡ true) ↔ Differ p q
unfolding page_duplicates
page_duplicates-Differ p q = go p.node q.node refl refl
  where
    go :
        (n m : Option ℕ)
        → p.node ≡ n
        → q.node ≡ m
        → (no_errors (page_duplicates p q) ≡ true) ↔ Differ p q
    go none none e f = (λ h. ground (arith, h, e, f), λ h. ground (arith, h, e, f))
    go none (some m) e f = (λ h. ground (arith, h, e, f), λ h. ground (arith, h, e, f))
    go (some n) none e f = (λ h. ground (arith, h, e, f), λ h. ground (arith, h, e, f))
    go (some n) (some m) e f = (λ h. ground (arith, h, e, f), λ h. ground (arith, h, e, f))

validate_page_duplication-Differ :
    (p : HugePage) (ps : List HugePage)
    → (no_errors (validate_page_duplication p ps) ≡ true) ↔ All (Differ p) ps
unfolding validate_page_duplication
validate_page_duplication-Differ p [] = (λ h. tt, λ h. refl)
validate_page_duplication-Differ p (q ∷ ps) =
    let e = no_errors-append (page_duplicates p q) (validate_page_duplication p ps) in
    let (a, b) = page_duplicates-Differ p q in
    let (c, d) = validate_page_duplication-Differ p ps in
    (
      λ h. (a (ground (arith, e, h)), c (ground (arith, e, h))),
      λ (x, y). ground (arith, e, b x, d y),
    )

is_page_size-AllowedSize : (p : HugePage) → (is_page_size p.size ≡ true) ↔ AllowedSize p
is_page_size-AllowedSize p = (λ h. ground (arith, h), λ h. ground (arith, h))

validate_pages-AllowedPages :
    (ps : List HugePage)
    → (no_errors (validate_pages ps) ≡ true) ↔ (All AllowedSize ps × PairwiseDiffer ps)
unfolding validate_pages
validate_pages-AllowedPages [] = (λ h. (tt, tt), λ h. refl)
validate_pages-AllowedPages (p ∷ ps) =
    let e = no_errors-append (validate_page_duplication p ps) (validate_pages ps) in
    let (a, b) = validate_page_duplication-Differ p ps in
    let (c, d) = validate_pages-AllowedPages ps in
    let (f, g) = is_page_size-AllowedSize p in
    (
      λ h. (
        (f (ground (arith, h)), (c (ground (arith, e, h))).0),
        (a (ground (arith, e, h)), (c (ground (arith, e, h))).1),
      ),
      λ ((x, xs), (y, ys)). ground (arith, e, g x, b y, d (xs, ys)),
    )

abbrev pub DefaultAllowed : HugePages → Type 0
DefaultAllowed h = elim (h.default_huge_pages_size) [
  | none ↦ Unit
  | some size ↦ (size ≡ "1G") ⊎ (size ≡ "2M")
]

-- Huge pages pass validation exactly when the default size and all sizes are 1G or 2M, and no two
-- pages have the same size and the same NUMA node, or the same size and both no node.
pub validate_huge_pages_iff :
    (h : HugePages)
    → (validate_huge_pages (some h) ≡ [])
      ↔ (DefaultAllowed h × (All AllowedSize h.pages × PairwiseDiffer h.pages))
unfolding validate_huge_pages
validate_huge_pages_iff h = go h.default_huge_pages_size refl
  where
    pages :
        (no_errors (validate_pages h.pages) ≡ true)
        ↔ (All AllowedSize h.pages × PairwiseDiffer h.pages)
    pages = validate_pages-AllowedPages h.pages

    go :
        (o : Option String)
        → h.default_huge_pages_size ≡ o
        → (validate_huge_pages (some h) ≡ [])
          ↔ (DefaultAllowed h × (All AllowedSize h.pages × PairwiseDiffer h.pages))
    go none e = rw e (
      λ x. (tt, pages.0 (ap no_errors x)),
      λ (x, y). no_errors-nil (validate_pages h.pages) (pages.1 y),
    )
    go (some size) e = elim (Bool-cases (is_page_size size)) [
      | inl q ↦
          let head : (size ≡ "1G") ⊎ (size ≡ "2M") = ground (arith, q) in
          rw (e, q)
            (
              λ x. (head, pages.0 (ap no_errors x)),
              λ (x, y). no_errors-nil (validate_pages h.pages) (pages.1 y),
            )
      | inr q ↦ rw (e, q) (λ x. absurd (ground (arith, x)), λ (x, y). absurd (ground (arith, q, x)))
    ]
