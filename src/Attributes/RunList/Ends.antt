-- ===== src/Attributes/RunList/Ends.antt =====
-- RunList.Process ends on every buffer.
use mftextractor.Base.{ℕ, zero, suc, ◌+◌, ◌<◌, ◌≢◌, ltb→lt, ◌==◌, ltb, arith}
use mftextractor.Go.Outcome.{stuck, >>=-ne-stuck, ok-ne-stuck, if-ne-stuck}
use mftextractor.Go.Slice.{Slice, index}
use mftextractor.Attributes.RunList.{
  RunList, cluster_offs_b, cluster_len_b, read_run, process_from, process,
}

read_run-ne-stuck : (s : Slice) (ptr l o : ℕ) → read_run s ptr l o ≢ stuck
unfolding read_run
read_run-ne-stuck s ptr l o = ground arith

process_from-ne-stuck :
    (fuel : ℕ) (s : Slice) (ptr : ℕ) (runs : RunList) (total : ℕ)
    → 0 < fuel
    → s.len < ptr + fuel
    → process_from fuel s ptr runs total ≢ stuck
unfolding process_from
process_from-ne-stuck zero s ptr runs total p h = absurd (omega arith)
process_from-ne-stuck (suc fuel) s ptr runs total p h =
    if-ne-stuck (ltb ptr s.len) _ _
      (λ more.
        >>=-ne-stuck (index s ptr) _ (λ e. ground arith)
          λ b _.
            if-ne-stuck (cluster_len_b b == 0) _ _ (λ _. ok-ne-stuck (runs, total))
              λ run.
                >>=-ne-stuck (read_run s ptr (cluster_len_b b) (cluster_offs_b b)) _
                  (read_run-ne-stuck s ptr (cluster_len_b b) (cluster_offs_b b))
                  λ r _.
                    process_from-ne-stuck fuel s _ _ _ (omega (arith, ltb→lt ptr s.len more))
                      (ground (arith, ltb→lt ptr s.len more)))
      (λ past. ok-ne-stuck (runs, total))

-- Process returns or panics on every buffer: its loop comes to an end.
pub process-ne-stuck : (s : Slice) → process s ≢ stuck
unfolding process
process-ne-stuck s = process_from-ne-stuck (suc s.len) s 0 _ 0 (omega arith) (omega arith)
