-- ===== src/Journal/Tests.antt =====
-- One file, its acknowledgment, and the test of the receipt on them.
use solstone_tmux.Base.{◌≡◌, refl, false, [], ◌∷◌, codes, some, ok, get, insert, text_eq}
use solstone_tmux.Journal.{
  AcknowledgedFile, LocalFile, UploadResult, accepted, assess_receipt, valid, is_refused,
  assess_reported, assess_descriptors, conclude, check_descriptors, acknowledge, acknowledge_one,
}
use solstone_tmux.Journal.Collect.{collect, has_duplicate, has_text}
use solstone_tmux.Journal.Acknowledges.{IsReceipt, assess_receipt-valid}

abbrev pub sent : LocalFile
sent = record { name = codes "tmux_main_screen.jsonl"; size = 3; sha256 = codes "ab" }

abbrev pub written_file : AcknowledgedFile
written_file = record {
  submitted = codes "tmux_main_screen.jsonl";
  written = codes "tmux_main_screen.jsonl";
  size = 3;
  sha256 = codes "ab";
  disposition = codes "written";
}

abbrev pub upload : UploadResult
upload = record {
  status = accepted;
  authoritative_key = some (codes "120000_005");
  descriptors = some (ok (written_file ∷ []));
}

pub upload-valid : assess_receipt upload (sent ∷ []) ≡ some (valid (written_file ∷ []))
unfolding assess_receipt is_refused assess_reported assess_descriptors conclude check_descriptors
    acknowledge acknowledge_one collect has_duplicate has_text get insert text_eq
upload-valid = refl

assess_receipt-valid_example :
    (is_refused upload.status ≡ false)
    × (upload.descriptors ≡ some (ok (written_file ∷ [])))
    × IsReceipt (written_file ∷ []) (sent ∷ [])
unfolding has_text
assess_receipt-valid_example =
    assess_receipt-valid upload (sent ∷ []) (written_file ∷ []) (refl, tt) upload-valid
