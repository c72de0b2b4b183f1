-- ===== src/Notify/Service.antt =====
-- backend/services/notify-service/service.go.
use constell.Prelude.{ℕ, ◌+◌, ◌%◌, ◌^◌, String, List, [], ◌∷◌, ◌==◌, nat_eq, string_eq}
use constell.Prelude.Exec.{Exec, pure, ◌>>=◌, ◌>>◌, or_fail, reject_if}
use constell.Notify.Store.{
  Store, UnreadChannel, UnreadDm, get_unread_channels, get_unread_dms, mark_channel_read,
  mark_dm_read,
}

pub data NotifyCode : Type 0 where
  unauthenticated invalid_argument internal : NotifyCode

pub record UnreadCounts : Type 0 where
  pub dm_total : ℕ
  pub dm_conversations : List UnreadDm
  pub channel_total : ℕ
  pub channels : List UnreadChannel

-- The loops that add up int32 counts, which wrap around.
unfoldable pub add_dms : ℕ → List UnreadDm → ℕ
add_dms total [] = total
add_dms total (dm ∷ dms) = add_dms ((total + dm.count) % 2 ^ 32) dms

unfoldable pub add_channels : ℕ → List UnreadChannel → ℕ
add_channels total [] = total
add_channels total (c ∷ cs) = add_channels ((total + c.count) % 2 ^ 32) cs

-- GetUnreadCounts
unfoldable pub get_unread_counts_handler : String → Exec Store NotifyCode UnreadCounts
unfolding add_dms add_channels
get_unread_counts_handler user_id = do
  reject_if (user_id == "") unauthenticated
  channels ← or_fail internal (get_unread_channels user_id)
  dms ← or_fail internal (get_unread_dms user_id)
  pure (record {
    dm_total = add_dms 0 dms;
    dm_conversations = dms;
    channel_total = add_channels 0 channels;
    channels = channels;
  })

-- MarkDMRead
unfoldable pub mark_dm_read_handler : String → String → Exec Store NotifyCode (Unit {0})
mark_dm_read_handler user_id conv_id = do
  reject_if (user_id == "") unauthenticated
  reject_if (conv_id == "") invalid_argument
  or_fail internal (mark_dm_read user_id conv_id)

-- MarkChannelRead
unfoldable pub mark_channel_read_handler : String → String → Exec Store NotifyCode (Unit {0})
mark_channel_read_handler user_id channel_id = do
  reject_if (user_id == "") unauthenticated
  reject_if (channel_id == "") invalid_argument
  or_fail internal (mark_channel_read user_id channel_id)
