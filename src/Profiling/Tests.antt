-- ===== src/Profiling/Tests.antt =====
-- Concrete partitions and shapes.
use delta_serve_v_llm.Common.{◌≡◌, refl, [], ◌∷◌, arith, sum, length}
use delta_serve_v_llm.Profiling.{Generator, parts_of, partition}
use delta_serve_v_llm.Profiling.Parts.{AreUpTo, partition-AreUpTo}

-- Requests of 200 tokens at most, steps of 300, a buffer of 256 rows.
abbrev small : Generator
small = record { batch_max_tokens = 300; ft_cap = 256; max_req_len = 200; inf_cap = 300 }

thirds : partition small 500 2 ≡ 167 ∷ 167 ∷ 166 ∷ []
unfolding partition parts_of
thirds = refl

partition-AreUpTo_example :
    (sum (partition small 500 2) ≡ 500)
    × (length (partition small 500 2) ≡ parts_of small 500 2)
    × AreUpTo small.max_req_len (partition small 500 2)
partition-AreUpTo_example = partition-AreUpTo small 500 2 (omega arith)
