-- ===== src/Cache/Tests.antt =====
-- The range functions on 100 bytes that start in the middle of a line.
use t113_c.Base.{◌+◌, ◌-◌, ◌%◌, ltb, if◌then◌else◌, ◌&&◌, [], ◌∷◌, ◌≡◌, true, refl, arith}
use t113_c.Hw.{sync_i, dcache_cpa}
use t113_c.Cache.{range}
use t113_c.Cache.Lines.{sweep, line_total, line_count, range-lines}

range-lines_example :
    let t' = sweep dcache_cpa (1000 - 1000 % 64) (line_total 1000 1100) [] in
    (range dcache_cpa 10 1000 1100 [] ≡ (true, sync_i ∷ t'))
    × (line_count dcache_cpa 1024 t'
        ≡ (if ltb 1000 (1024 + 64) && ltb 1024 1100 then 1 else 0) + line_count dcache_cpa 1024 [])
range-lines_example =
    range-lines dcache_cpa 10 1000 1100 1024 [] (omega arith) (omega arith) (omega arith) refl
