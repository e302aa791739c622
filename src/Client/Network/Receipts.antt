-- ===== src/Client/Network/Receipts.antt =====
-- frontend/src/NetworkManager.cpp: receipts of group messages and read receipts.
use bit_atm.Prelude.{
  Bool, not, ◌&&◌, List, [], ◌∷◌, if◌then◌else◌, is_empty, every, is_digit, select, tokens, ◌==◌,
  Str, text,
}
use bit_atm.Client.Throwing.{returns, ◌>>=◌, ◌>>◌, gets, when}
use bit_atm.Client.Date.{canonical}
use bit_atm.Client.Storage.Groups
use bit_atm.Client.Storage.Recipients
use bit_atm.Packet.{Packet}
use bit_atm.Client.Network.{
  Net, message_seen, group_message_delivered, group_receipt_updated, stored, store, emit,
}

-- TimestampUtil::canonical of a field.
unfoldable pub canonical_of : Str → Net Str
unfolding gets canonical
canonical_of ts = gets (λ n. canonical n.env.dates ts)

unfoldable pub set_aggregate : Str → Str → Str → Net (Unit {0})
unfolding store Groups.update_group_message_status
set_aggregate group_id ts status = store (Groups.update_group_message_status group_id ts status)

unfoldable pub recompute_group_aggregate : Str → Str → Net (Unit {0})
unfolding ◌>>=◌ returns stored emit set_aggregate text Recipients.recipient_count
    Recipients.all_recipients_seen Recipients.all_recipients_delivered
recompute_group_aggregate group_id ts = do
  count ← stored (Recipients.recipient_count group_id ts)
  when (not (count == 0)) (do
    seen ← stored (Recipients.all_recipients_seen group_id ts)
    if seen
        then (do set_aggregate group_id ts (text "seen"); emit (message_seen group_id ts))
        else (do
          delivered ← stored (Recipients.all_recipients_delivered group_id ts)
          when delivered (do
            set_aggregate group_id ts (text "delivered")
            emit (group_message_delivered group_id ts))))

-- What matches ^\d+$ in a PCRE, where the $ may stand before a last newline.
abbrev chop_newline : Str → Str
chop_newline [] = []
chop_newline (c ∷ []) = if c == 10 then [] else c ∷ []
chop_newline (c ∷ d ∷ s) = c ∷ chop_newline (d ∷ s)

unfoldable pub is_numeric : Str → Bool
is_numeric s = not (is_empty (chop_newline s)) && every is_digit (chop_newline s)

unfoldable pub handle_read_receipt : Packet → Net (Unit {0})
unfolding ◌>>=◌ store emit canonical_of is_numeric recompute_group_aggregate
    Recipients.mark_recipient_seen
handle_read_receipt p = do
  ts ← canonical_of p.body
  if is_numeric p.to
      then (do
        store (Recipients.mark_recipient_seen p.to ts p.from)
        emit (group_receipt_updated p.to ts)
        recompute_group_aggregate p.to ts)
      else emit (message_seen p.from ts)

-- QString::split(";", Qt::SkipEmptyParts)
unfoldable pub parts : Str → List Str
unfolding tokens
parts s = select (λ t. not (is_empty t)) (tokens b';' s)

unfoldable pub handle_group_send_ack : Packet → Net (Unit {0})
unfolding ◌>>=◌ returns store canonical_of parts Recipients.save_recipient_snapshot
handle_group_send_ack p = do
  ts ← canonical_of p.timestamp
  when (not (is_empty (parts p.key)))
      (store (Recipients.save_recipient_snapshot p.error_msg ts (parts p.key)))

unfoldable pub handle_group_delivered : Packet → Net (Unit {0})
unfolding ◌>>=◌ store emit canonical_of recompute_group_aggregate
    Recipients.mark_recipient_delivered
handle_group_delivered p = do
  ts ← canonical_of p.body
  store (Recipients.mark_recipient_delivered p.to ts p.from)
  emit (group_receipt_updated p.to ts)
  recompute_group_aggregate p.to ts
