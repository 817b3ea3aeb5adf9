-- ===== src/Chat/Document/Recent.antt =====
-- A page of the timeline.
use wire_app.Common.{
  ℕ, zero, suc, Bool, true, false, not, ◌||◌, ◌==◌, ◌+◌, ◌-◌, ◌≤◌, ◌≡◌, refl, sym, subst, List, [],
  ◌∷◌, ◌++◌, some, arith, length, take, drop, is_empty, take-append-drop, length-drop, ltb, All,
}
use wire_app.Chat.Message.{ChatMessage, precedes}
use wire_app.Chat.Message.Order.{IsInOrder-append}
use wire_app.Chat.Records.{StoredConversation}
use wire_app.Chat.Service.{ChatService}
use wire_app.Chat.Document.{Library, Document, load_recent_messages}
use wire_app.Chat.Document.Contents.{Contents, contents}
use wire_app.Chat.Document.Load.{IsTimeline, load_messages_query-IsTimeline}

-- A page of what the query answered, with what is older than it.
pub record IsPage (s : ChatService) (stored : StoredConversation) (c : Contents) (limit : ℕ)
    (page : List ChatMessage) (has_more : Bool) : Type 0 where
  pub older : List ChatMessage
  pub joined : IsTimeline s stored c (older ++ page)
  pub newest : All (λ (x : ChatMessage). All (λ (y : ChatMessage). precedes y x ≡ false) page) older
  pub bounded : length page ≤ limit
  pub full : (is_empty older || length page == limit) ≡ true
  pub more : has_more ≡ not (is_empty older)

is_empty-take :
    (n : ℕ) (x : ChatMessage) (xs : List ChatMessage) → is_empty (take n (x ∷ xs)) ≡ (n == 0)
is_empty-take zero x xs = refl
is_empty-take (suc n) x xs = ground arith

take-is_empty :
    (limit : ℕ) (xs : List ChatMessage)
    → ltb limit (length xs) ≡ not (is_empty (take (length xs - limit) xs))
take-is_empty limit [] = ground arith
take-is_empty limit (x ∷ xs) = ground (arith, is_empty-take (suc (length xs) - limit) x xs)

drop_full :
    (limit : ℕ) (xs : List ChatMessage)
    → (is_empty (take (length xs - limit) xs) || length (drop (length xs - limit) xs) == limit)
      ≡ true
drop_full limit xs = ground (arith, take-is_empty limit xs, length-drop (length xs - limit) xs)

-- A page has the newest messages: where a document can be read, the page and what is older make up the
-- timeline of the entries that the query for `limit` + 1 gives, in its order; the page has at most
-- `limit` messages, exactly as many if anything is older, and no older message comes after one of the
-- page; and it is said that there are more exactly if anything is older.
pub load_recent_messages-IsPage :
    (lib : Library) (s : ChatService) (stored : StoredConversation) (limit : ℕ) (doc : Document)
    (c : Contents)
    → lib.open_doc stored.ticket stored.conversation.document_id ≡ some doc
    → contents lib doc (some (limit + 1)) ≡ some c
    → (page : List ChatMessage) × (has_more : Bool) × (load_recent_messages lib s stored limit
        ≡ some (page, has_more))
      × IsPage s stored c limit page has_more
unfolding load_recent_messages
load_recent_messages-IsPage lib s stored limit doc c h g =
    let loaded = load_messages_query-IsTimeline lib s stored (some (limit + 1)) doc c h g in
    let all = loaded.0 in
    let n = length all - limit in
    let whole : IsTimeline s stored c (take n all ++ drop n all) =
      subst (IsTimeline s stored c) (sym (take-append-drop n all)) loaded.2 in
    (
      drop n all,
      ltb limit (length all),
      rw loaded.1 refl,
      record {
        older = take n all;
        joined = whole;
        newest = IsInOrder-append (take n all) (drop n all) whole.in_order;
        bounded = omega (arith, length-drop n all);
        full = drop_full limit all;
        more = take-is_empty limit all;
      },
    )
