-- ===== src/Http/Sharing.antt =====
-- http/http.go and api/api.go: the slices that `staticBooter.BootSpec` hands out and that
-- `PxelinuxConfig` writes its links into, on a heap of arrays.
pub mod Isolation
use pixiecore.Api.{BootSpec}
use pixiecore.Http.Config.{link, config_text}
use pixiecore.Prelude.{ℕ, zero, suc, List, [], ◌∷◌, ◌++◌, Bytes, length, get_or}

-- The arrays of strings, by address. A slice here is a whole array.
abbrev pub Heap : Type 0
Heap = List (List Bytes)

-- A `BootSpec` with the address of the array of its `Initrd`.
pub record SharedSpec : Type 0 where
  pub kernel : Bytes
  pub initrd : ℕ
  pub cmdline : Bytes

abbrev pub array : Heap → ℕ → List Bytes
array h p = get_or h p []

abbrev pub view : Heap → SharedSpec → BootSpec
view h s = record { kernel = s.kernel; initrd = array h s.initrd; cmdline = s.cmdline }

abbrev pub set_elem {ℓ} : {A : Type ℓ} → ℕ → A → List A → List A
set_elem i a [] = []
set_elem zero a (x ∷ xs) = a ∷ xs
set_elem (suc i) a (x ∷ xs) = x ∷ set_elem i a xs

-- `staticBooter.BootSpec`: `append` to a nil slice makes a new array
unfoldable pub copy_spec : Heap → SharedSpec → Heap × SharedSpec
copy_spec h s = (h ++ (array h s.initrd ∷ []), record s { initrd = length h })

-- `for i := range spec.Initrd`, from the `i`th of the `n` elements that are left
unfoldable pub link_loop : ℕ → ℕ → ℕ → Heap → Heap
link_loop p zero i h = h
link_loop p (suc n) i h =
    link_loop p n (suc i) (set_elem p (set_elem i (link (get_or (array h p) i [])) (array h p)) h)

-- The rest of the handler: `spec` is overwritten, and the configuration is made of it.
unfoldable pub link_shared : Heap → SharedSpec → Heap × Bytes
unfolding link_loop
link_shared h s =
    let h' = link_loop s.initrd (length (array h s.initrd)) 0 h in
    (h', config_text (view h' (record s { kernel = link s.kernel })))

abbrev pub link_copy : Heap × SharedSpec → Heap × Bytes
link_copy (h, s) = link_shared h s

-- A request for a configuration in static mode, from the booter's own spec.
unfoldable pub static_request : SharedSpec → Heap → Heap × Bytes
unfolding copy_spec link_shared
static_request s h = link_copy (copy_spec h s)

-- As many requests in a row, and the texts of their configurations.
unfoldable pub static_requests : ℕ → SharedSpec → Heap → List Bytes
unfolding static_request
static_requests zero s h = []
static_requests (suc n) s h = (static_request s h).1 ∷ static_requests n s (static_request s h).0
