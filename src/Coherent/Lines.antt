-- ===== src/Coherent/Lines.antt =====
-- What a range function does to the caches: it cleans, or drops, the lines that its loop visits.
use t113_c.Base.{
  ℕ, zero, suc, ◌+◌, ◌-◌, ◌*◌, ◌/◌, ◌%◌, ◌^◌, ◌≤◌, ◌<◌, ◌==◌, ltb, if◌then◌else◌, Bool, true, false,
}
use t113_c.Base.{◌&&◌, ◌||◌, ◌≡◌, ◌≢◌, refl, ◌∙◌, arith, [], ◌∷◌, u64, lt→ltb, Bool-cases, inl, inr}
use native.Mathlib.Nat.{mod-eq_of_lt}
use native.Mathlib.Decide.{dec_lt}
use t113_c.Hw.{Trace, LineOp, line, dcache_cpa, dcache_ipa}
use t113_c.Cache.{line_loop, range, align_down}
use t113_c.Cache.Lines.{align_down_lem}
use t113_c.Sys.{metal_machine_cache_flush, metal_machine_cache_invalidate}
use t113_c.Coherent.{Cached, replay}

-- Whether the loop from `i` to `end` visits a line.
pub swept : ℕ → ℕ → ℕ → ℕ → Bool
swept zero i end_ l = false
swept (suc fuel) i end_ l = elim (ltb i end_) [
  | false ↦ false
  | true ↦ i / 64 == l || swept fuel (u64 (i + 64)) end_ l
]

-- `v` is `u` with the picked lines written back.
pub record Cleaned (picked : ℕ → Bool) (u v : Cached) : Type 0 where
  pub mem :
      (b : ℕ)
      → v.mem b ≡ (
          if picked (b / 64) && (u.held (b / 64) && u.dirty (b / 64)) then u.content b else u.mem b)
  pub content : (b : ℕ) → v.content b ≡ u.content b
  pub held : (l : ℕ) → v.held l ≡ u.held l
  pub dirty : (l : ℕ) → v.dirty l ≡ (if picked l then false else u.dirty l)

-- `v` is `u` with the picked lines removed.
pub record Dropped (picked : ℕ → Bool) (u v : Cached) : Type 0 where
  pub mem : (b : ℕ) → v.mem b ≡ u.mem b
  pub content : (b : ℕ) → v.content b ≡ u.content b
  pub held : (l : ℕ) → v.held l ≡ (if picked l then false else u.held l)

line_loop-stop :
    (op : LineOp) (fuel i e : ℕ) (t : Trace) → ltb i e ≡ false → (line_loop op fuel i e t).1 ≡ t
unfolding line_loop
line_loop-stop op zero i e t stop = refl
line_loop-stop op (suc fuel) i e t stop = ground (arith, stop)

line_loop-step :
    (op : LineOp) (fuel i e : ℕ) (t : Trace)
    → ltb i e ≡ true
    → line_loop op (suc fuel) i e t ≡ line_loop op fuel (u64 (i + 64)) e (line op i ∷ t)
unfolding line_loop
line_loop-step op fuel i e t go = ground (arith, go)

swept-stop : (fuel i e l : ℕ) → ltb i e ≡ false → swept fuel i e l ≡ false
unfolding swept
swept-stop zero i e l stop = refl
swept-stop (suc fuel) i e l stop = ground (arith, stop)

swept-step :
    (fuel i e l : ℕ)
    → ltb i e ≡ true
    → swept (suc fuel) i e l ≡ (i / 64 == l || swept fuel (u64 (i + 64)) e l)
unfolding swept
swept-step fuel i e l go = ground (arith, go)

Cleaned-step :
    (fuel i e : ℕ) (t : Trace) (s w : Cached)
    → ltb i e ≡ true
    → Cleaned (swept fuel (u64 (i + 64)) e) (replay (line dcache_cpa i ∷ t) s) w
    → Cleaned (swept (suc fuel) i e) (replay t s) w
unfolding replay
Cleaned-step fuel i e t s w go v = record {
  mem = λ b. ground (arith, v.mem b, swept-step fuel i e (b / 64) go);
  content = λ b. ground (arith, v.content b);
  held = λ l. ground (arith, v.held l);
  dirty = λ l. ground (arith, v.dirty l, swept-step fuel i e l go);
}

line_loop-Cleaned :
    (fuel i e : ℕ) (t : Trace) (s : Cached)
    → Cleaned (swept fuel i e) (replay t s) (replay (line_loop dcache_cpa fuel i e t).1 s)
line_loop-Cleaned zero i e t s =
    unfold line_loop swept in
    (record { mem = λ b. refl; content = λ b. refl; held = λ l. refl; dirty = λ l. refl })
line_loop-Cleaned (suc fuel) i e t s = elim (Bool-cases (ltb i e)) [
  | inl go ↦
      let next = u64 (i + 64) in
      rw (line_loop-step dcache_cpa fuel i e t go)
        (Cleaned-step fuel i e t s _ go (line_loop-Cleaned fuel next e (line dcache_cpa i ∷ t) s))
  | inr stop ↦ rw (line_loop-stop dcache_cpa (suc fuel) i e t stop) (record {
    mem = λ b. ground (arith, swept-stop (suc fuel) i e (b / 64) stop);
    content = λ b. refl;
    held = λ l. refl;
    dirty = λ l. ground (arith, swept-stop (suc fuel) i e l stop);
  })
]

Dropped-step :
    (fuel i e : ℕ) (t : Trace) (s w : Cached)
    → ltb i e ≡ true
    → Dropped (swept fuel (u64 (i + 64)) e) (replay (line dcache_ipa i ∷ t) s) w
    → Dropped (swept (suc fuel) i e) (replay t s) w
unfolding replay
Dropped-step fuel i e t s w go v = record {
  mem = λ b. ground (arith, v.mem b);
  content = λ b. ground (arith, v.content b);
  held = λ l. ground (arith, v.held l, swept-step fuel i e l go);
}

line_loop-Dropped :
    (fuel i e : ℕ) (t : Trace) (s : Cached)
    → Dropped (swept fuel i e) (replay t s) (replay (line_loop dcache_ipa fuel i e t).1 s)
line_loop-Dropped zero i e t s =
    unfold line_loop swept in (record { mem = λ b. refl; content = λ b. refl; held = λ l. refl })
line_loop-Dropped (suc fuel) i e t s = elim (Bool-cases (ltb i e)) [
  | inl go ↦
      let next = u64 (i + 64) in
      rw (line_loop-step dcache_ipa fuel i e t go)
        (Dropped-step fuel i e t s _ go (line_loop-Dropped fuel next e (line dcache_ipa i ∷ t) s))
  | inr stop ↦ rw (line_loop-stop dcache_ipa (suc fuel) i e t stop) (record {
    mem = λ b. refl;
    content = λ b. refl;
    held = λ l. ground (arith, swept-stop (suc fuel) i e l stop);
  })
]

-- The loop visits the line of each address in its range.
swept-inside :
    (fuel i e b : ℕ)
    → i % 64 ≡ 0
    → i ≤ b
    → b < e
    → e ≤ i + 64 * fuel
    → e + 64 ≤ 2 ^ 64
    → swept fuel i e (b / 64) ≡ true
swept-inside zero i e b whole low high enough room = absurd (omega arith)
swept-inside (suc fuel) i e b whole low high enough room =
    let go = lt→ltb i e (omega arith) in
    let next : u64 (i + 64) ≡ i + 64 = mod-eq_of_lt {n = i + 64} {m = 2 ^ 64} (omega arith) in
    swept-step fuel i e (b / 64) go ∙ elim (dec_lt b (i + 64)) [
      | yes here ↦ ground arith
      | no later ↦ rw next (
          ground (
            arith,
            swept-inside fuel (i + 64) e b (omega arith) (omega arith) high (omega arith) room,
          ))
    ]

-- The lines that the cache functions of libmetal visit for a region.
abbrev pub region : ℕ → ℕ → ℕ → ℕ → Bool
region fuel addr len l = swept fuel (align_down addr) (u64 (addr + len)) l

-- On fuel for its lines, a region is visited in full.
pub region-inside :
    (fuel addr len b : ℕ)
    → addr ≤ b
    → b < addr + len
    → addr + len + 64 ≤ 2 ^ 64
    → len + 64 ≤ 64 * fuel
    → region fuel addr len (b / 64) ≡ true
region-inside fuel addr len b low high room enough =
    let end_flat : u64 (addr + len) ≡ addr + len =
      mod-eq_of_lt {n = addr + len} {m = 2 ^ 64} (omega arith) in
    let start : align_down addr ≡ addr - addr % 64 = align_down_lem addr (omega arith) in
    rw (start, end_flat)
      (swept-inside fuel (addr - addr % 64) (addr + len) b (omega arith) (omega arith) high
        (omega arith) room)

-- A flush of a region that does not start at NULL cleans its lines, and an invalidation drops them.
pub flush-Cleaned :
    (fuel addr len : ℕ) (s : Cached)
    → addr ≢ 0
    → Cleaned (region fuel addr len) s (replay (metal_machine_cache_flush fuel addr len []).1 s)
unfolding metal_machine_cache_flush range replay
flush-Cleaned fuel addr len s ne =
    let loop = line_loop-Cleaned fuel (align_down addr) (u64 (addr + len)) [] s in
    record {
      mem = λ b. ground (arith, loop.mem b);
      content = λ b. ground (arith, loop.content b);
      held = λ l. ground (arith, loop.held l);
      dirty = λ l. ground (arith, loop.dirty l);
    }

pub invalidate-Dropped :
    (fuel addr len : ℕ) (s : Cached)
    → addr ≢ 0
    → Dropped
        (region fuel addr len)
        s
        (replay (metal_machine_cache_invalidate fuel addr len []).1 s)
unfolding metal_machine_cache_invalidate range replay
invalidate-Dropped fuel addr len s ne =
    let loop = line_loop-Dropped fuel (align_down addr) (u64 (addr + len)) [] s in
    record {
      mem = λ b. ground (arith, loop.mem b);
      content = λ b. ground (arith, loop.content b);
      held = λ l. ground (arith, loop.held l);
    }
