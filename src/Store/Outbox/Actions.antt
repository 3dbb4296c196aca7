-- ===== src/Store/Outbox/Actions.antt =====
-- The action names that go to the SD card and over the wire.
use x4_printer.Prelude.{◌≡◌, ◌↔◌, refl, some, arith}
use x4_printer.Prelude.Text.{Text, codes, text_eq_iff}
use x4_printer.Store.Outbox.{
  ApprovalAction, print, keep, delete, approval_action_name, parse_approval_action,
}

-- `parseApprovalAction` accepts exactly the names that `approvalActionName` writes, and gives back
-- the action of that name.
pub parse_approval_action_iff :
    (s : Text) (a : ApprovalAction)
    → (parse_approval_action s ≡ some a) ↔ (s ≡ approval_action_name a)
unfolding parse_approval_action approval_action_name
parse_approval_action_iff s a = (
  λ e. ground (
    arith,
    text_eq_iff s (codes "print"),
    text_eq_iff s (codes "keep"),
    text_eq_iff s (codes "delete"),
  ),
  λ e. rw e (names a),
)
  where
    names : (b : ApprovalAction) → parse_approval_action (approval_action_name b) ≡ some b
    names print = refl
    names keep = refl
    names delete = refl
