-- ===== src/Data/Fragments.antt =====
-- The two ways to read a file give the same bytes.
use mftextractor.Base.{
  ℕ, ◌≡◌, refl, sym, ◌∙◌, ap, Bool, true, false, List, [], ◌∷◌, ◌++◌, if◌then◌else◌, Bool-cases,
  inl, inr,
}
use mftextractor.Base.Int.{ℤ, ltb_ℤ}
use mftextractor.Go.Outcome.{Outcome, ok, panic, stuck, ◌>>=◌, if-true, if-false}
use mftextractor.Go.Text.{codes}
use mftextractor.Attributes.RunList.{RunList}
use mftextractor.Disk.Reader.{DiskReader}
use mftextractor.Mft.Record.{Record, has_resident_data_attr, get_resident_data}
use mftextractor.Mft.Table.{Records}
use mftextractor.Data.{
  fragments, write_runs, locate_data_async, located_content, get_run_list, is_empty_run, is_stored,
  next_offset, read_run_data, is_zero_ℤ,
}
use mathlib.Core.List.{append_assoc, append-nil}

-- The fragments, one behind the other.
unfoldable pub joined : List (List ℕ) → List ℕ
joined [] = []
joined (d ∷ ds) = d ++ joined ds

-- The fragments behind what the buffer holds.
abbrev behind : List ℕ → Outcome (List (List ℕ)) → Outcome (List ℕ)
behind buf m = m >>= λ ds. ok (buf ++ joined ds)

behind-sent :
    (buf d : List ℕ) (m : Outcome (List (List ℕ)))
    → behind (buf ++ d) m ≡ behind buf (m >>= λ ds. ok (d ∷ ds))
unfolding joined
behind-sent buf d (ok ds) = ap ok (append_assoc buf d (joined ds))
behind-sent buf d panic = refl
behind-sent buf d stuck = refl

-- One round of both loops, with the division of either by a number that is not zero.
round-eq :
    (ended beyond stored : Bool) (buf d : List ℕ) (m : Outcome (List (List ℕ)))
    → (if ended
        then ok buf
        else if beyond
        then ok buf
        else if stored
        then behind (buf ++ d) m
        else behind buf m)
      ≡ behind buf (
          if ended
          then ok []
          else if beyond
          then ok []
          else if stored
          then (m >>= λ ds. ok (d ∷ ds))
          else m)
unfolding joined
round-eq true b c buf d m = ap ok (sym (append-nil buf))
round-eq false true c buf d m = ap ok (sym (append-nil buf))
round-eq false false true buf d m = behind-sent buf d m
round-eq false false false buf d m = refl

module _ (hd : DiskReader) (cluster : ℤ) (whole : is_zero_ℤ cluster ≡ false) where
  write_runs-fragments :
      (runs : RunList) (offset : ℤ) (buf : List ℕ)
      → write_runs hd cluster offset runs buf ≡ behind buf (fragments hd cluster offset runs)
  unfolding write_runs fragments joined
  write_runs-fragments [] offset buf = ap ok (sym (append-nil buf))
  write_runs-fragments (r ∷ rs) offset buf =
      let o = next_offset cluster offset r in
      let d = read_run_data hd cluster o r in
      rw (whole, write_runs-fragments rs o buf, write_runs-fragments rs o (buf ++ d))
        (round-eq (is_empty_run r rs) (ltb_ℤ hd.disk_size o) (is_stored r) buf d
          (fragments hd cluster o rs))

  pub located_content-locate_data_async :
      (table : Records) (start : ℤ) (r : Record)
      → located_content hd cluster table start r
        ≡ (locate_data_async hd cluster table start r >>= λ ds. ok (joined ds))
  unfolding located_content locate_data_async joined
  located_content-locate_data_async table start r = elim (Bool-cases (has_resident_data_attr r)) [
    | inl e ↦ if-true _ _ _ e ∙ resident (get_resident_data r) ∙ ap send (sym (if-true _ _ _ e))
    | inr e ↦
        if-false _ _ _ e
        ∙ stored (get_run_list table r (codes "DATA"))
        ∙ ap send (sym (if-false _ _ _ e))
  ]
    where
      send : Outcome (List (List ℕ)) → Outcome (List ℕ)
      send m = m >>= λ ds. ok (joined ds)

      resident : (m : Outcome (List ℕ)) → (m >>= λ d. ok ([] ++ d)) ≡ send (m >>= λ d. ok (d ∷ []))
      resident (ok d) = ap ok (sym (append-nil d))
      resident panic = refl
      resident stuck = refl

      stored :
          (m : Outcome RunList)
          → (m >>= λ runs. write_runs hd cluster start runs [])
            ≡ send (m >>= λ runs. fragments hd cluster start runs)
      stored (ok runs) = write_runs-fragments runs start []
      stored panic = refl
      stored stuck = refl
