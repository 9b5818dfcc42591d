-- ===== src/Collect/Fingerprint.antt =====
-- internal/collect/fingerprint.go: the digest that says whether an entry has changed. SHA-256 in hex is
-- the parameter `sha256_hex`; nothing is assumed of it.
pub mod Trusted
use workspace_janitor.Prelude.{
  ◌+◌, ◌*◌, ◌-◌, ◌%◌, ◌^◌, String, ◌≡◌, Bool, true, false, not, ◌||◌, Option, none, some, List, [],
  ◌∷◌, ◌++◌, ◌==◌, is_empty, str_eq, concat, itoa, if◌then◌else◌, is_some,
}
use workspace_janitor.Prelude.Int.{ℤ, of_bits64, itoa_int}
use workspace_janitor.Core.Contract.{contract_version}
use workspace_janitor.Core.Retention.{Time, is_zero_time}
use workspace_janitor.Core.EntryKind
use workspace_janitor.Core.Entry.{Entry, GitState, ExportArchiveBinding, WorkspaceArchiveBinding}

-- `UnixNano()`: nanoseconds since 1970, as a wrapped int64.
unix_nano : Time → ℤ
unix_nano t = of_bits64 ((t + 4 * 2 ^ 64 - 62_135_596_800_000_000_000) % 2 ^ 64)

flag : Bool → String
flag true = "true"
flag false = "false"

-- `write(format, args...)`: the text and a NUL.
line : List String → String
line ws = concat (ws ++ "\0" ∷ [])

latest_line : Time → String
unfolding line unix_nano
latest_line t =
    if is_zero_time t then "" else line ("latest_modified=" ∷ itoa_int (unix_nano t) ∷ [])

export_line : Option ExportArchiveBinding → String
unfolding line
export_line none = ""
export_line (some b) = line ("export_archive=" ∷ b.manifest ∷ "|" ∷ b.manifest_sha256 ∷ [])

workspace_line : Option WorkspaceArchiveBinding → String
unfolding line unix_nano
workspace_line none = ""
workspace_line (some b) = line (
    "workspace_archive="
    ∷ b.manifest
    ∷ "|"
    ∷ b.manifest_sha256
    ∷ "|"
    ∷ itoa b.member_count
    ∷ "|"
    ∷ b.tree_digest
    ∷ "|"
    ∷ itoa_int (unix_nano b.created_at)
    ∷ [])

git_lines : Bool → Option GitState → String
unfolding line unix_nano flag
git_lines activity none = line ("git=none" ∷ [])
git_lines activity (some g) = concat (
    line (
      "git="
      ∷ g.head
      ∷ "|"
      ∷ g.branch
      ∷ "|"
      ∷ itoa_int g.dirty_files
      ∷ "|"
      ∷ itoa_int g.stashes
      ∷ "|"
      ∷ itoa_int g.unpublished_commits
      ∷ "|"
      ∷ flag g.locked
      ∷ "|"
      ∷ flag g.degraded
      ∷ "|"
      ∷ flag g.upstream_known
      ∷ "|"
      ∷ flag g.publication_known
      ∷ "|"
      ∷ flag g.bare
      ∷ "|"
      ∷ g.worktree_of
      ∷ "|"
      ∷ g.remote
      ∷ [])
    ∷ (if activity then line ("git_activity=" ∷ itoa_int (unix_nano g.last_activity) ∷ []) else "")
    ∷ (if is_empty g.source_approval_fingerprint
        then ""
        else line ("source_approvals=" ∷ g.source_approval_fingerprint ∷ []))
    ∷ [])

-- Everything that is written to the hash, in order.
fingerprint_text : Entry → Bool → String
unfolding line flag unix_nano latest_line export_line workspace_line git_lines
fingerprint_text e activity = concat (
    line ("path=" ∷ e.path ∷ [])
    ∷ line ("kind=" ∷ EntryKind.to_string e.kind ∷ [])
    ∷ line ("device=" ∷ itoa e.filesystem_id.device ∷ [])
    ∷ line ("inode=" ∷ itoa e.filesystem_id.inode ∷ [])
    ∷ line ("uid=" ∷ itoa e.ownership.uid ∷ [])
    ∷ line ("gid=" ∷ itoa e.ownership.gid ∷ [])
    ∷ line ("mode=" ∷ e.ownership.mode ∷ [])
    ∷ line ("size=" ∷ itoa_int e.size_bytes ∷ [])
    ∷ line ("deep=" ∷ flag e.size_is_deep ∷ [])
    ∷ line ("modified=" ∷ itoa_int (unix_nano e.modified_at) ∷ [])
    ∷ latest_line e.latest_modified_at
    ∷ line ("link=" ∷ e.symlink_target ∷ [])
    ∷ export_line e.export_archive
    ∷ workspace_line e.workspace_archive
    ∷ git_lines activity e.git
    ∷ [])

module _ (sha256_hex : String → String) where
  unfoldable pub fingerprint_with : Entry → Bool → String
  unfolding fingerprint_text
  fingerprint_with e activity = sha256_hex (fingerprint_text e activity)

  unfoldable pub fingerprint : Entry → String
  unfolding fingerprint_with
  fingerprint e = fingerprint_with e true

  -- Only a record with Git activity, and bound to no archive, can be of the format before activity was
  -- part of the digest.
  legacy_activity : Option GitState → Bool
  legacy_activity none = false
  legacy_activity (some g) = not (is_zero_time g.last_activity)

  -- `none` where the saved digest cannot be trusted.
  unfoldable pub snapshot_fingerprint : Entry → Option String
  unfolding fingerprint_with legacy_activity
  snapshot_fingerprint e =
      if is_empty e.fingerprint || str_eq e.fingerprint (fingerprint e)
      then some (fingerprint e)
      else if not (e.contract_version == contract_version)
          || not (legacy_activity e.git)
          || is_some e.export_archive
          || is_some e.workspace_archive
      then none
      else if not (str_eq e.fingerprint (fingerprint_with e false))
      then none
      else some (fingerprint e)
