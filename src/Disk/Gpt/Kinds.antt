-- ===== src/Disk/Gpt/Kinds.antt =====
-- IdentifyType looks a name up where the keys are GUIDs.
use mftextractor.Base.{◌≡◌, refl, ◌∙◌, ap, Bool, true, false, none, some, if◌then◌else◌}
use mftextractor.Go.Outcome.{Outcome, ok, panic, stuck, ◌>>=◌, if-false}
use mftextractor.Go.Text.{GoString, empty_string, codes, str_eq}
use mftextractor.Attributes.Header.{lookup}
use mftextractor.Utils.Bytes.{stringify_guid}
use mftextractor.Disk.Gpt.{
  GptPartition, partition_type_guids, kind_of_guid, or_empty, get_partition_type, identify_type,
}

-- A name that the table gives, and a text that is no key of it, are no keys of it.
not_key :
    (windows raid : Bool) (guid : GoString)
    → str_eq (codes "ebd0a0a2-b9e5-4433-87c0-68b6b72699c7") guid ≡ windows
    → str_eq (codes "a19d880f-05fc-4d3b-a006-743f0f84911e") guid ≡ raid
    → lookup
        (elim (if windows
          then some (codes "Windows")
          else if raid
          then some (codes "Linux RAID")
          else none) [ some t ↦ t | none ↦ guid ])
        partition_type_guids
      ≡ none
unfolding lookup
not_key true b guid e f = unfold str_eq in refl
not_key false true guid e f = unfold str_eq in refl
not_key false false guid e f = if-false _ _ _ e ∙ if-false _ _ _ f

kind_not_key : (guid : GoString) → lookup (kind_of_guid guid) partition_type_guids ≡ none
unfolding lookup
kind_not_key guid = not_key _ _ guid refl refl

-- IdentifyType never names a type: where the GUID can be written as text, it returns the empty
-- string, also for the two GUIDs of the table, since it looks up what GetPartitionType has found.
pub identify_type-empty :
    (p : GptPartition)
    → identify_type p ≡ (stringify_guid p.partition_type_guid >>= λ guid. ok empty_string)
unfolding identify_type get_partition_type
identify_type-empty p = by_text (stringify_guid p.partition_type_guid)
  where
    by_text :
        (m : Outcome GoString)
        → ((m >>= λ guid. ok (kind_of_guid guid)) >>= λ t.
            ok (or_empty (lookup t partition_type_guids)))
          ≡ (m >>= λ guid. ok empty_string)
    by_text (ok guid) = ap (λ o. ok (or_empty o)) (kind_not_key guid)
    by_text panic = refl
    by_text stuck = refl
