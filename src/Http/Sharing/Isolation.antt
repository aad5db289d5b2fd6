-- ===== src/Http/Sharing/Isolation.antt =====
-- What a handler writes into a boot spec does not reach the booter.
use pixiecore.Api.{BootSpec}
use pixiecore.Http.Config.{link, link_spec, config_text}
use pixiecore.Http.Sharing.{
  Heap, SharedSpec, array, view, set_elem, copy_spec, link_loop, link_shared, static_request,
  static_requests,
}
use pixiecore.Prelude.{
  ℕ, zero, suc, ◌<◌, List, [], ◌∷◌, ◌++◌, map, ◌≡◌, ◌≢◌, refl, ap, ap₂, append_assoc, ◌∙◌, arith,
  Bytes, length, length-append, get_or, replicate,
}

module _ {A : Type 0} (d : A) where
  get_or-front : (xs ys : List A) (i : ℕ) → i < length xs → get_or (xs ++ ys) i d ≡ get_or xs i d
  get_or-front [] ys i h = absurd (omega arith)
  get_or-front (x ∷ xs) ys zero h = refl
  get_or-front (x ∷ xs) ys (suc i) h = get_or-front xs ys i (omega arith)

  get_or-behind : (xs ys : List A) (a : A) → get_or (xs ++ (a ∷ ys)) (length xs) d ≡ a
  get_or-behind [] ys a = refl
  get_or-behind (x ∷ xs) ys a = get_or-behind xs ys a

  get_or-set_same : (i : ℕ) (a : A) (xs : List A) → i < length xs → get_or (set_elem i a xs) i d ≡ a
  get_or-set_same i a [] h = absurd (omega arith)
  get_or-set_same zero a (x ∷ xs) h = refl
  get_or-set_same (suc i) a (x ∷ xs) h = get_or-set_same i a xs (omega arith)

  get_or-set_other :
      (i j : ℕ) (a : A) (xs : List A) → i ≢ j → get_or (set_elem i a xs) j d ≡ get_or xs j d
  get_or-set_other i j a [] ne = refl
  get_or-set_other zero zero a (x ∷ xs) ne = absurd (ne refl)
  get_or-set_other zero (suc j) a (x ∷ xs) ne = refl
  get_or-set_other (suc i) zero a (x ∷ xs) ne = refl
  get_or-set_other (suc i) (suc j) a (x ∷ xs) ne = get_or-set_other i j a xs (λ e. ne (ap suc e))

length-set_elem : {A : Type 0} (i : ℕ) (a : A) (xs : List A) → length (set_elem i a xs) ≡ length xs
length-set_elem i a [] = refl
length-set_elem zero a (x ∷ xs) = refl
length-set_elem (suc i) a (x ∷ xs) = ap suc (length-set_elem i a xs)

set_elem-behind :
    {A : Type 0} (xs ys : List A) (x a : A)
    → set_elem (length xs) a (xs ++ (x ∷ ys)) ≡ (xs ++ (a ∷ [])) ++ ys
set_elem-behind [] ys x a = refl
set_elem-behind (y ∷ xs) ys x a = ap (◌∷◌ y) (set_elem-behind xs ys x a)

-- Writing into one array leaves the others.
link_loop-other : (p q n i : ℕ) (h : Heap) → p ≢ q → array (link_loop p n i h) q ≡ array h q
unfolding link_loop
link_loop-other p q zero i h ne = refl
link_loop-other p q (suc n) i h ne =
    link_loop-other p q n (suc i) _ ne ∙ get_or-set_other [] p q _ h ne

-- `linked` has been linked, and `rest` is still to be.
link_loop-map :
    (p : ℕ) (linked rest : List Bytes) (h : Heap)
    → p < length h
    → array h p ≡ linked ++ rest
    → array (link_loop p (length rest) (length linked) h) p ≡ linked ++ map link rest
unfolding link_loop
link_loop-map p linked [] h lt e = e
link_loop-map p linked (x ∷ rest) h lt e =
    let elem : get_or (array h p) (length linked) [] ≡ x =
      ap (λ (xs : List Bytes). get_or xs (length linked) []) e ∙ get_or-behind [] linked rest x in
    let h' =
      set_elem p
        (set_elem (length linked) (link (get_or (array h p) (length linked) [])) (array h p)) h in
    let written : array h' p ≡ (linked ++ (link x ∷ [])) ++ rest =
      get_or-set_same [] p _ h lt
      ∙ ap₂ (λ (a : Bytes) (xs : List Bytes). set_elem (length linked) (link a) xs) elem e
      ∙ set_elem-behind linked rest x (link x) in
    let count : suc (length linked) ≡ length (linked ++ (link x ∷ [])) =
      omega (arith, length-append linked (link x ∷ [])) in
    ap (λ (i : ℕ). array (link_loop p (length rest) i h') p) count
    ∙ link_loop-map p (linked ++ (link x ∷ [])) rest h'
        (omega (
          arith,
          length-set_elem p
              (set_elem (length linked) (link (get_or (array h p) (length linked) [])) (array h p))
              h,
        ))
        written
    ∙ append_assoc linked (link x ∷ []) (map link rest)

-- The configuration is that of the boot spec of the booter, and that is as it was.
pub record IsIsolated (s : SharedSpec) (h : Heap) : Type 0 where
  pub text : (static_request s h).1 ≡ config_text (link_spec (view h s))
  pub unchanged : view (static_request s h).0 s ≡ view h s
  pub grown : length h < length (static_request s h).0

length-link_loop : (p n i : ℕ) (h : Heap) → length (link_loop p n i h) ≡ length h
unfolding link_loop
length-link_loop p zero i h = refl
length-link_loop p (suc n) i h = length-link_loop p n (suc i) _ ∙ length-set_elem p _ h

static_request-IsIsolated : (s : SharedSpec) (h : Heap) → s.initrd < length h → IsIsolated s h
unfolding static_request copy_spec link_shared
static_request-IsIsolated s h lt =
    let xs = array h s.initrd in
    let g = h ++ (xs ∷ []) in
    let new : array g (length h) ≡ xs = get_or-behind [] h [] xs in
    let linked : array (link_loop (length h) (length (array g (length h))) 0 g) (length h)
        ≡ map link xs =
      ap (λ (n : ℕ). array (link_loop (length h) n 0 g) (length h)) (ap length new)
      ∙ link_loop-map (length h) [] xs g (omega (arith, length-append h (xs ∷ []))) new in
    let old : array (link_loop (length h) (length (array g (length h))) 0 g) s.initrd ≡ xs =
      link_loop-other (length h) s.initrd (length (array g (length h))) 0 g (λ e. omega arith)
      ∙ get_or-front [] h (xs ∷ []) s.initrd lt in
    record {
      text =
          ap
            (λ (ids : List Bytes).
              config_text (record { kernel = link s.kernel; initrd = ids; cmdline = s.cmdline }))
            linked;
      unchanged =
          ap (λ (ids : List Bytes). record { kernel = s.kernel; initrd = ids; cmdline = s.cmdline })
            old;
      grown = omega (
        arith,
        length-link_loop (length h) (length (array g (length h))) 0 g,
        length-append h (xs ∷ []),
      );
    }

-- However many requests are served in a row from a booter's own boot spec, which every handler could
-- write into, each gets the configuration that is made of that boot spec with its ids turned into
-- links once.
pub static_requests-replicate :
    (n : ℕ) (s : SharedSpec) (h : Heap)
    → s.initrd < length h
    → static_requests n s h ≡ replicate n (config_text (link_spec (view h s)))
unfolding static_requests
static_requests-replicate zero s h lt = refl
static_requests-replicate (suc n) s h lt =
    let once = static_request-IsIsolated s h lt in
    ap₂ (λ (t : Bytes) (ts : List Bytes). t ∷ ts) once.text
      (static_requests-replicate n s (static_request s h).0 (omega (arith, once.grown))
        ∙ ap (λ (v : BootSpec). replicate n (config_text (link_spec v))) once.unchanged)
