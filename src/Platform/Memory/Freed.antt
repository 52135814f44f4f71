-- ===== src/Platform/Memory/Freed.antt =====
-- `platform_rproc_remove` frees every entry that `platform_rproc_mmap` made, and each one once.
use t113_c.Base.{
  ℕ, zero, suc, ◌≤◌, ◌<◌, ◌==◌, if◌then◌else◌, Bool, true, false, ◌≡◌, ◌≢◌, refl, sym, ◌∙◌, ap,
  arith,
}
use t113_c.Base.{List, [], ◌∷◌, ◌++◌, Option, length, get_or}
use mathlib.Core.List.{append-nil, append_assoc}
use t113_c.Calls.{
  Call, metal_list_init, metal_list_first, metal_list_del, metal_list_add_tail, metal_free_memory,
}
use t113_c.Hw.{Library, Trace, library}
use t113_c.Platform.Memory.{
  Mapping, platform_rproc_mmap, add_mapping, platform_rproc_remove, remove_loop,
}

-- The list of the entries, oldest first, as its operations make it: an entry is taken out at its
-- first place.
abbrev pub without : ℕ → List ℕ → List ℕ
without e [] = []
without e (x ∷ xs) = if e == x then xs else x ∷ without e xs

abbrev pub on_members : Call → List ℕ → List ℕ
on_members metal_list_init xs = []
on_members (metal_list_add_tail e) xs = xs ++ (e ∷ [])
on_members (metal_list_del e) xs = without e xs
on_members c xs = xs

unfoldable pub members : Trace → List ℕ
members [] = []
members (library c ∷ t) = on_members c (members t)
members (e ∷ t) = members t

-- What was given back to the allocator, oldest first.
abbrev pub on_freed : Call → List ℕ → List ℕ
on_freed (metal_free_memory p) xs = xs ++ (p ∷ [])
on_freed c xs = xs

unfoldable pub freed : Trace → List ℕ
freed [] = []
freed (library c ∷ t) = on_freed c (freed t)
freed (e ∷ t) = freed t

-- `metal_list_first` is the first entry, or NULL if there is none.
abbrev pub KnowsFirst : Library → Type 0
KnowsFirst lib = (t : Trace) → lib.pointer metal_list_first t ≡ get_or (members t) 0 0

-- No entry lies at NULL.
abbrev pub nonzero : List ℕ → Bool
nonzero [] = true
nonzero (x ∷ xs) = if x == 0 then false else nonzero xs

module _ (lib : Library) where
  remove_loop-stop :
      (fuel : ℕ) (t : Trace)
      → lib.pointer metal_list_first t ≡ 0
      → remove_loop lib (suc fuel) t ≡ (true, library metal_list_first ∷ t)
  unfolding remove_loop
  remove_loop-stop fuel t e = ground (arith, e)

  remove_loop-step :
      (fuel e : ℕ) (t : Trace)
      → lib.pointer metal_list_first t ≡ e
      → (e == 0) ≡ false
      → remove_loop lib (suc fuel) t
        ≡ remove_loop lib fuel (
            library (metal_free_memory e)
            ∷ library (metal_list_del e)
            ∷ library metal_list_first
            ∷ t)
  unfolding remove_loop
  remove_loop-step fuel e t at some_entry = ground (arith, at, some_entry)

  remove_loop-frees :
      (es : List ℕ) (fuel : ℕ) (t : Trace)
      → KnowsFirst lib
      → members t ≡ es
      → nonzero es ≡ true
      → length es < fuel
      → let (ended, t') = remove_loop lib fuel t in
        (ended ≡ true) × (members t' ≡ []) × (freed t' ≡ freed t ++ es)
  unfolding members freed
  remove_loop-frees es zero t first all nz lt = absurd (omega arith)
  remove_loop-frees [] (suc fuel) t first all nz lt =
      rw (remove_loop-stop fuel t (first t ∙ rw all refl)) (refl, all, sym (append-nil (freed t)))
  remove_loop-frees (e ∷ es) (suc fuel) t first all nz lt =
      let some_entry : (e == 0) ≡ false = ground (arith, nz) in
      let u : Trace =
        library (metal_free_memory e) ∷ library (metal_list_del e) ∷ library metal_list_first ∷ t in
      let left : members u ≡ es = ap (without e) all ∙ ground arith in
      let rest = remove_loop-frees es fuel u first left (ground (arith, nz)) (omega arith) in
      rw (remove_loop-step fuel e t (first t ∙ rw all refl) some_entry)
        (rest.0, rest.1, rest.2 ∙ append_assoc (freed t) (e ∷ []) es)

-- What a mapping adds to the list.
abbrev pub entries_of : Mapping → List ℕ
entries_of m = if m.entry == 0 then [] else m.entry ∷ []

-- The arguments of a mapping.
pub record Request : Type 0 where
  pub pa : Option ℕ
  pub da : Option ℕ
  pub size : ℕ
  pub attribute : ℕ

module _ (lib : Library) (plat : ℕ) where
  -- Mappings one after the other, with the entries that they made.
  abbrev pub map_all : List Request → Trace → List ℕ × Trace
  map_all [] t = ([], t)
  map_all (r ∷ rs) t =
      let (m, t1) = platform_rproc_mmap lib plat r.pa r.da r.size r.attribute t in
      let (es, t2) = map_all rs t1 in (entries_of m ++ es, t2)

  mmap-members :
      (r : Request) (t : Trace)
      → let (m, t') = platform_rproc_mmap lib plat r.pa r.da r.size r.attribute t in
        (members t' ≡ members t ++ entries_of m) × (freed t' ≡ freed t)
  unfolding platform_rproc_mmap add_mapping members freed
  mmap-members r t = ground (arith, append-nil (members t))

  map_all-members :
      (rs : List Request) (t : Trace)
      → let (es, t') = map_all rs t in (members t' ≡ members t ++ es) × (freed t' ≡ freed t)
  map_all-members [] t = (sym (append-nil (members t)), refl)
  map_all-members (r ∷ rs) t =
      let (m, t1) = platform_rproc_mmap lib plat r.pa r.da r.size r.attribute t in
      let one = mmap-members r t in
      let rest = map_all-members rs t1 in
      (
        rest.0
            ∙ ap (λ (xs : List ℕ). xs ++ (map_all rs t1).0) one.0
            ∙ append_assoc (members t) (entries_of m) (map_all rs t1).0,
        rest.1 ∙ one.1,
      )

  map_all-entries :
      (rs : List Request) (t : Trace)
      → (nonzero (map_all rs t).0 ≡ true) × (length (map_all rs t).0 ≤ length rs)
  map_all-entries [] t = (refl, omega arith)
  map_all-entries (r ∷ rs) t =
      let (m, t1) = platform_rproc_mmap lib plat r.pa r.da r.size r.attribute t in
      let rest = map_all-entries rs t1 in (ground (arith, rest.0), ground (arith, rest.1))

-- A platform that is not NULL starts with no mapping. After any mappings, whose entries are `es` where
-- they succeed, `platform_rproc_remove` ends if it has more fuel than there were mappings: it has freed
-- exactly the entries `es`, each once and in order, and the list is empty.
pub platform_rproc_remove-frees :
    (lib : Library) (plat fuel : ℕ) (rs : List Request) (t : Trace)
    → KnowsFirst lib
    → plat ≢ 0
    → members t ≡ []
    → length rs < fuel
    → let (es, t1) = map_all lib plat rs t in
      let (ended, t2) = platform_rproc_remove lib fuel plat t1 in
      (ended ≡ true) × (members t2 ≡ []) × (freed t2 ≡ freed t ++ es)
unfolding platform_rproc_remove
platform_rproc_remove-frees lib plat fuel rs t first there none_yet enough =
    let (es, t1) = map_all lib plat rs t in
    let grown = map_all-members lib plat rs t in
    let entries = map_all-entries lib plat rs t in
    let all : members t1 ≡ es = grown.0 ∙ ap (λ (xs : List ℕ). xs ++ es) none_yet in
    let ends = remove_loop-frees lib es fuel t1 first all entries.0 (omega (arith, entries.1)) in
    ground (arith, there, ends.0, ends.1, ends.2, grown.1)
