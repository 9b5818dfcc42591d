-- ===== src/Store/Cleanup/Table.antt =====
-- The table and the journal as maps from a key: the state that each gives it.
use text.Mathlib.TextEquality.{eq_iff}
use workspace_janitor.Prelude.{
  String, ◌≡◌, refl, true, false, ◌&&◌, Option, none, some, List, [], ◌∷◌, ◌++◌, any, str_eq,
  if◌then◌else◌, arith, Bool-cases, inl, inr,
}
use workspace_janitor.Core.Cleanup.{CleanupState, CleanupItem}
use workspace_janitor.Store.Cleanup.{CleanupEvent, lookup, same_key, set_row, collides}

state_in : Option CleanupItem → Option CleanupState
state_in none = none
state_in (some c) = some c.state

-- The state of a key's row.
unfoldable pub state_of : String → String → List CleanupItem → Option CleanupState
unfolding state_in
state_of cid aid items = state_in (lookup cid aid items)

-- The state that the last event of a key leads to, after the events before.
unfoldable pub state_after :
    String → String → List CleanupEvent → Option CleanupState → Option CleanupState
state_after cid aid [] last = last
state_after cid aid (e ∷ es) last =
    let same = str_eq e.cleanup_id cid && str_eq e.action_id aid in
    state_after cid aid es (if same then some e.to_state else last)

pub state_after-append :
    (cid aid : String) (es : List CleanupEvent) (e : CleanupEvent) (last : Option CleanupState)
    → state_after cid aid (es ++ e ∷ []) last ≡ (
        if str_eq e.cleanup_id cid && str_eq e.action_id aid
        then some e.to_state
        else state_after cid aid es last)
unfolding state_after
state_after-append cid aid [] e last = refl
state_after-append cid aid (d ∷ es) e last = state_after-append cid aid es e _

same_key_iff :
    (cid aid : String) (c : CleanupItem)
    → same_key cid aid c ≡ true
    → (c.cleanup_id ≡ cid) × (c.action_id ≡ aid)
unfolding same_key
same_key_iff cid aid c h =
    ((eq_iff c.cleanup_id cid).0 (ground arith), (eq_iff c.action_id aid).0 (ground arith))

keys_differ :
    (cid aid cid' aid' : String) (c : CleanupItem)
    → same_key cid aid c ≡ false
    → same_key cid' aid' c ≡ true
    → (str_eq cid cid' && str_eq aid aid') ≡ false
unfolding same_key
keys_differ cid aid cid' aid' c h k = elim (Bool-cases (str_eq cid cid' && str_eq aid aid')) [
  | inl e ↦
      let first = (eq_iff cid cid').0 (ground arith) in
      let second = (eq_iff aid aid').0 (ground arith) in ground (arith, first, second)
  | inr e ↦ e
]

pub state_of-set_row :
    (cid aid : String) (item old : CleanupItem) (cs : List CleanupItem) (cid' aid' : String)
    → lookup cid aid cs ≡ some old
    → state_of cid' aid' (set_row cid aid item cs)
      ≡ (if str_eq cid cid' && str_eq aid aid' then some item.state else state_of cid' aid' cs)
unfolding state_of lookup set_row same_key
state_of-set_row cid aid item old [] cid' aid' h = ground arith
state_of-set_row cid aid item old (c ∷ cs) cid' aid' h = elim (Bool-cases (same_key cid aid c)) [
  | inl e ↦ let k = same_key_iff cid aid c e in ground (arith, k.0, k.1)
  | inr e ↦
      let rest = state_of-set_row cid aid item old cs cid' aid' (ground arith) in
      let differ = keys_differ cid aid cid' aid' c e in ground (arith, rest, differ)
]

pub state_of-append :
    (item : CleanupItem) (cs : List CleanupItem) (cid aid : String)
    → any (collides item) cs ≡ false
    → state_of cid aid (cs ++ item ∷ []) ≡ (
        if str_eq item.cleanup_id cid && str_eq item.action_id aid
        then some item.state
        else state_of cid aid cs)
unfolding state_of lookup collides same_key
state_of-append item [] cid aid h = ground arith
state_of-append item (c ∷ cs) cid aid h =
    let rest = state_of-append item cs cid aid (ground arith) in
    let differ = keys_differ item.cleanup_id item.action_id cid aid c (ground arith) in
    ground (arith, rest, differ)
