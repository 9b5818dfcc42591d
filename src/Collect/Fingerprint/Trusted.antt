-- ===== src/Collect/Fingerprint/Trusted.antt =====
-- internal/collect/fingerprint.go: which saved digests are trusted.
use workspace_janitor.Prelude.{
  ◌≡◌, String, Bool, true, false, not, ◌&&◌, ◌||◌, Option, none, some, ◌==◌, is_empty, is_some,
  str_eq, arith, if◌then◌else◌,
}
use workspace_janitor.Core.Contract.{contract_version}
use workspace_janitor.Core.Retention.{is_zero_time}
use workspace_janitor.Core.Entry.{Entry, GitState}
use workspace_janitor.Collect.Fingerprint.{
  fingerprint, fingerprint_with, snapshot_fingerprint, legacy_activity,
}

dated : Option GitState → Bool
dated none = false
dated (some g) = not (is_zero_time g.last_activity)

module _ (sha256_hex : String → String) where
  -- There is no saved digest, or it is the entry's own in the current format, or the entry is of the
  -- current contract, has a dated Git state and no archive, and it is the entry's own in the format
  -- without Git activity.
  unfoldable pub trusted : Entry → Bool
  unfolding dated
  trusted e =
      is_empty e.fingerprint
      || str_eq e.fingerprint (fingerprint_with sha256_hex e true)
      || (str_eq e.fingerprint (fingerprint_with sha256_hex e false)
          && (e.contract_version == contract_version)
          && dated e.git
          && not (is_some e.export_archive)
          && not (is_some e.workspace_archive))

  -- For every digest function and entry, a saved snapshot has a fingerprint exactly when its saved
  -- digest is absent, or the digest of its own data in the current format, or that in the format
  -- without Git activity while it has the current contract version, a dated Git state and no archive;
  -- and the fingerprint is then that of its own data in the current format.
  pub snapshot_fingerprint-trusted :
      (e : Entry)
      → snapshot_fingerprint sha256_hex e
        ≡ (if trusted e then some (fingerprint sha256_hex e) else none)
  unfolding snapshot_fingerprint trusted fingerprint legacy_activity dated
  snapshot_fingerprint-trusted e = elim e.git [ none ↦ ground arith | some g ↦ ground arith ]
