-- ===== src/Hash/Tests/Scan.antt =====
-- `scan` at a hash of two nodes and at one that is moving its nodes.
use redis_db.Prelude.{
  none, replicate, ℕ, ◌≤◌, inl, List, flatten, arith, ◌≡◌, refl, Bool, [], ◌∷◌, count_if, ok, ◌>>=◌,
  Returns,
}
use redis_db.BitsOp.{rev}
use redis_db.Hash.Valid.{count, count-moving}
use redis_db.Hash.Scan.{scan}
use redis_db.Hash.Scan.Calls.{Covers, scan-Covers}
use redis_db.Hash.Scan.Guarantee.{Keeps, scan_calls, scan_calls-meets}
use redis_db.Hash.Scan.Once.{KeepsOne, scan_calls-once}
use redis_db.Hash.Scan.Whole.{scan_calls-whole}
use redis_db.Hash.Tests.Stale.{overloaded-IsOverloaded, one_three}
use redis_db.Hash.Tests.Rehash.{begun-IsMoving}
use redis_db.Hash.Tests.Iterator.{begun-IsValid}
use redis_db.Traits.{has_key}
use redis_db.Table.Chains.{holds_key}
use redis_db.Hash.{Hash, npos}
use redis_db.Hash.Operations.{erase}
use redis_db.Hash.Tests.{traits, node, program, overloaded, begun}
use redis_db.Hash.Tests.Operations.{two, two-IsResting, two-Fits}

-- Four calls from the cursor 0 meet the four buckets and come back to 0.
whole_scan :
    (do
      (v, values) ← scan two 0 []
      (v, values) ← scan two v values
      (v, values) ← scan two v values
      scan two v values)
    ≡ ok (0, (3, 30) ∷ (2, 20) ∷ [])
unfolding program scan rev
whole_scan = refl

-- While the nodes move, one call meets a bucket of the old table and its two expansions.
moving_scan : scan begun 0 [] ≡ ok (2, (7, 70) ∷ (3, 30) ∷ [])
unfolding program scan rev
moving_scan = refl

-- Sixty-four buckets with seven nodes.
abbrev wide : Hash (ℕ × ℕ)
wide = record {
  active = record {
    nodes =
        (node 47 5 ∷ [])
        ∷ (node 46 10 ∷ [])
        ∷ (node 45 20 ∷ [])
        ∷ (node 44 30 ∷ [])
        ∷ []
        ∷ (node 42 50 ∷ [])
        ∷ (node 41 60 ∷ [])
        ∷ (node 40 70 ∷ [])
        ∷ replicate 56 [];
    size = 7;
    buckets_number = 64;
  };
  backup = none;
  buckets_number = 64;
  buckets_mask = 63;
  rehash_index = npos;
}

-- Between two calls an erasure begins to shrink the table: the second call begins with a bucket of
-- the smaller table, and emits again what the first has emitted.
shrinking_scan :
    (do (v, values) ← scan wide 0 []; (_, h) ← erase traits wide 46; scan h v values)
    ≡ ok (4, (47, 5) ∷ (47, 5) ∷ [])
unfolding program scan rev
shrinking_scan = refl

scan-Covers_example : Returns (scan begun 2 ((9, 90) ∷ [])) (Covers traits begun 2 ((9, 90) ∷ []))
scan-Covers_example = scan-Covers traits begun 2 ((9, 90) ∷ []) begun-IsValid refl (omega arith)

overloaded-Keeps : Keeps traits 3 overloaded
overloaded-Keeps = record {
  valid = inl overloaded-IsOverloaded.resting;
  full = refl;
  present = omega (arith, one_three);
}

begun-Keeps : Keeps traits 3 begun
unfolding count_if flatten
begun-Keeps = record {
  valid = begun-IsValid;
  full = refl;
  present = omega (arith, count-moving traits (holds_key traits 3) begun-IsMoving);
}

-- The states of a hash that begins to grow after the first call.
abbrev growing : List (Hash (ℕ × ℕ))
growing = begun ∷ begun ∷ begun ∷ []

-- The walk comes to its end.
scan_growing :
    scan_calls (overloaded ∷ growing) 0 []
    ≡ ok (0, (7, 70) ∷ (3, 30) ∷ (1, 10) ∷ (2, 20) ∷ (0, 5) ∷ [])
unfolding program scan scan_calls rev
scan_growing = refl

scan_calls-meets_example :
    Returns
      (scan_calls (overloaded ∷ growing) 0 [])
      λ r. r.0 ≡ 0 → 1 ≤ count_if (has_key traits 3) r.1
scan_calls-meets_example =
    scan_calls-meets traits 3 overloaded growing
      (overloaded-Keeps, (begun-Keeps, (begun-Keeps, (begun-Keeps, tt))))

scan_calls-whole_example :
    Returns
      (scan_calls (replicate 4 two) 0 [])
      λ s. (s.0 ≡ 0) × ((q : ℕ × ℕ → Bool) → count_if q s.1 ≡ count (λ n. q n.value) two)
scan_calls-whole_example = scan_calls-whole traits two two-IsResting two-Fits

overloaded-KeepsOne : KeepsOne traits 3 overloaded
overloaded-KeepsOne = (overloaded-Keeps, omega (arith, one_three))

begun-KeepsOne : KeepsOne traits 3 begun
unfolding count_if flatten
begun-KeepsOne =
    (begun-Keeps, omega (arith, count-moving traits (holds_key traits 3) begun-IsMoving))

scan_calls-once_example :
    Returns
      (scan_calls (overloaded ∷ growing) 0 [])
      λ r. (count_if (has_key traits 3) r.1 ≤ 1) × (r.0 ≡ 0 → count_if (has_key traits 3) r.1 ≡ 1)
scan_calls-once_example =
    scan_calls-once traits 3 overloaded growing
      (overloaded-KeepsOne, (begun-KeepsOne, (begun-KeepsOne, (begun-KeepsOne, tt))))
      (omega arith, (omega arith, (omega arith, tt)))
