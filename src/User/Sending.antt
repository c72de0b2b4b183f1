-- ===== src/User/Sending.antt =====
-- What `SendDM` of backend/services/user-service/service.go writes, and for whom.
use constell.Prelude.{
  String, ◌≡◌, refl, ap, ◌∙◌, true, false, Option, List, [], ◌∷◌, ◌++◌, ◌==◌, nat_eq, string_eq,
}
use constell.Prelude.Exec.{Result, ok, err, announced}
use constell.Prelude.Exec.Ends.{after_check, after_failing}
use constell.Prelude.Text.{trim_space}
use constell.Rpc.{Code, unauthenticated, invalid_argument, internal, permission_denied}
use constell.User.Rows.{RelationRow, DmConversationRow, DmMessageRow, Database}
use constell.User.Repository.Conversations.{is_pair}
use constell.User.Pairs.{lower, upper}
use constell.User.Wiring.{Runs, IsRunning, cached_relation-Runs}
use constell.User.Service.State.{UserService, cached_relation}
use constell.User.Service.Conversations.{
  DmMessage, to_dm_message, dm_created, is_blocked, send_dm_handler,
}
use constell.User.Delivery.{Lists, IsSent, delivers}

-- How SendDM ends. The reply shows the one message that was added, at the end: by the caller, in the
-- conversation of the two users, with the next seq; and neither of the two relations that the cache
-- returned blocks. Otherwise no message was added.
abbrev pub Sends :
    String → String → String → UserService → Result Code DmMessage × UserService → Type 0
Sends caller_id target_user_id content s (ok reply, t) =
    (theirs : Option RelationRow) × (ours : Option RelationRow) × (c : DmConversationRow)
    × (row : DmMessageRow) × ((cached_relation target_user_id caller_id s).0 ≡ ok theirs)
    × (is_blocked theirs ≡ false)
    × ((cached_relation caller_id target_user_id (cached_relation target_user_id caller_id s).1).0
        ≡ ok ours)
    × (is_blocked ours ≡ false)
    × (is_pair (lower caller_id target_user_id) (upper caller_id target_user_id) c ≡ true)
    × IsSent c caller_id content s.store.db.next_seq row
    × Lists (s.store.db.dm_messages ++ row ∷ []) t.store
    × (reply ≡ to_dm_message row)
    × (t.events
        ≡ s.events
          ++ announced (dm_created row caller_id target_user_id c.id content) s.nats s.publishes)
Sends caller_id target_user_id content s (err e, t) =
    Lists s.store.db.dm_messages t.store × (t.events ≡ s.events)

abbrev Same : Database → UserService → Type 0
Same db = Runs (λ d. d ≡ db)

-- On a running user service, where SendDM answers, exactly one message was added, at the end: by
-- the caller, with the trimmed content and the next seq, in the conversation of the two users by
-- the order of their ids; the reply shows it, its event is published if NATS takes it, and
-- neither of the two relations that the cache returned blocks. Where it fails no message was
-- added and no event published.
pub send_dm_handler-Sends :
    (caller_id target_user_id content : String) (file_ids : List String) (s : UserService)
    → IsRunning s
    → Sends caller_id
        (trim_space target_user_id)
        (trim_space content)
        s
        (send_dm_handler caller_id target_user_id content file_ids s)
unfolding send_dm_handler cached_relation
send_dm_handler-Sends caller_id target_user_id content file_ids s running =
    let target = trim_space target_user_id in
    let text = trim_space content in
    let db = s.store.db in
    let start : Same db s = record {
      store = refl;
      users = running.users;
      relations = running.relations;
    } in
    let P = Sends caller_id target text s in
    let asked = (cached_relation-Runs (λ d. d ≡ db) target caller_id).at s start in
    let s1 = (cached_relation target caller_id s).1 in
    let answered = (cached_relation-Runs (λ d. d ≡ db) caller_id target).at s1 asked in
    let s2 = (cached_relation caller_id target s1).1 in
    let before = ap (λ d. d.dm_messages) asked.store in
    let still = ap (λ d. d.dm_messages) answered.store in
    let next = ap (λ d. d.next_seq) answered.store in
    after_check P (caller_id == "") unauthenticated _ s (λ _. (refl, refl))
      λ _.
        after_check P (target == "") invalid_argument _ s (λ _. (refl, refl))
          λ _.
            after_check P (text == "") invalid_argument _ s (λ _. (refl, refl))
              λ _.
                after_failing P internal (cached_relation target caller_id) _ s (before, refl)
                  λ theirs read.
                    after_check P (is_blocked theirs) permission_denied _ s1 (λ _. (before, refl))
                      λ free.
                        after_failing P internal (cached_relation caller_id target) _ s1
                          (still, refl)
                          λ ours read'.
                            after_check P (is_blocked ours) permission_denied _ s2
                              (λ _. (still, refl))
                              λ free'.
                                delivers caller_id target text file_ids s2 P
                                  (λ t h quiet. (h ∙ still, quiet))
                                  λ c row t pair sent listed told. (
                                    theirs,
                                    ours,
                                    c,
                                    row,
                                    read,
                                    free,
                                    read',
                                    free',
                                    pair,
                                    record {
                                      conversation = sent.conversation;
                                      sender = sent.sender;
                                      text = sent.text;
                                      next = sent.next ∙ next;
                                    },
                                    listed ∙ ap (λ ms. ms ++ row ∷ []) still,
                                    refl,
                                    told,
                                  )
