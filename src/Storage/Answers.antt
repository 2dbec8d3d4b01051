-- ===== src/Storage/Answers.antt =====
-- The methods of the store in memory that read, against the abstract store (pkg/storage/memory.go).
use mathlib.Core.List.{Mem, Perm, not-mem-nil}
use mathlib.Core.List.Perm
use babylontower.Prelude.{
  ℕ, ◌≡◌, ◌↔◌, refl, subst, Option, none, some, List, [], ◌∷◌, Bytes, Bool, false, not, bytes_dec,
  length, Result, ok, err, arith, inl, inr, Option-cases,
}
use babylontower.Prelude.Int.{pos}
use babylontower.Prelude.Assoc.{lookup, values}
use babylontower.Storage.Records.{
  BlacklistEntry, ChannelState, ChannelPost, Error, is_expired, group_not_found,
  sender_key_not_found,
}
use babylontower.Storage.Memory.{MemoryStorage, new_memory_storage, lookup_nil}
use babylontower.Storage.Reading.{
  get_contact, message_count, get_messages, get_peer, get_config, is_blacklisted, get_group,
  get_sender_key, get_channel, get_channel_posts, posts_window,
}
use babylontower.Storage.Spec.{View, Op, steps, empty_view, unlinked}
use babylontower.Storage.Refinement.{view}
use babylontower.Storage.Runs.{write_all, write_all-view}
use babylontower.Storage.Posts.{IsKeyed, HasKeyedPosts, mem-lookup, write_all-HasKeyedPosts}

-- What is there, or the error for what is not.
abbrev pub found : {V : Type 0} → Error → Option V → Result Error V
found e none = err e
found e (some v) = ok v

abbrev pub or_empty : Option Bytes → Bytes
or_empty none = []
or_empty (some v) = v

-- A ban is in force if there is an entry that has not expired.
abbrev pub is_in_force : ℕ → Option BlacklistEntry → Bool
is_in_force now none = false
is_in_force now (some e) = not (is_expired now e)

abbrev pub unlinked_answer : Result Error ChannelState → Result Error ChannelState
unlinked_answer (err e) = err e
unlinked_answer (ok c) = ok (unlinked c)

-- Each getter of a store returns what the abstract store has. `order` is the order of a range over a map.
pub record Answers (order : List ChannelPost → List ChannelPost) (s : MemoryStorage) (v : View)
    : Type 0 where
  pub contact : (k : Bytes) → get_contact k s ≡ v.contact k
  pub messages : (k : Bytes) → get_messages k (pos 0) (pos 0) s ≡ ok (v.messages k)
  pub count : (k : Bytes) → message_count k s ≡ length (v.messages k)
  pub peer : (k : Bytes) → get_peer k s ≡ v.peer k
  pub config : (k : Bytes) → get_config k s ≡ or_empty (v.config k)
  pub blacklisted :
      (now : ℕ) (k : Bytes) → is_blacklisted now k s ≡ is_in_force now (v.blacklisted k)
  pub group : (k : Bytes) → get_group k s ≡ found group_not_found (v.group k)
  pub sender_key :
      (g k : Bytes) → get_sender_key g k s ≡ found sender_key_not_found (v.sender_key g k)
  pub channel :
      (k : Bytes) → unlinked_answer (get_channel k s) ≡ found group_not_found (v.channel k)
  pub posts :
      (g : Bytes)
      → (ps : List ChannelPost) × (get_channel_posts order g (pos 0) (pos 0) s ≡ ok ps)
        × ((p : ChannelPost) → Mem p ps ↔ (v.post g p.post_id ≡ some p))

posts_window-all : {A : Type 0} (xs : List A) → posts_window (pos 0) (pos 0) xs ≡ ok xs
posts_window-all [] = refl
posts_window-all (x ∷ xs) = ground arith

module _ (s : MemoryStorage) where
  get_messages-view : (k : Bytes) → get_messages k (pos 0) (pos 0) s ≡ ok ((view s).messages k)
  unfolding view get_messages
  get_messages-view k = elim (Option-cases (lookup bytes_dec k s.messages)) [
    | inl e ↦ ground arith
    | inr (ms, e) ↦ ground arith
  ]

  get_config-view : (k : Bytes) → get_config k s ≡ or_empty ((view s).config k)
  unfolding view get_config
  get_config-view k = ground arith

  is_blacklisted-view :
      (now : ℕ) (k : Bytes) → is_blacklisted now k s ≡ is_in_force now ((view s).blacklisted k)
  unfolding view is_blacklisted
  is_blacklisted-view now k = ground arith

  get_group-view : (k : Bytes) → get_group k s ≡ found group_not_found ((view s).group k)
  unfolding view get_group
  get_group-view k = ground arith

  get_sender_key-view :
      (g k : Bytes) → get_sender_key g k s ≡ found sender_key_not_found ((view s).sender_key g k)
  unfolding view get_sender_key
  get_sender_key-view g k = elim (Option-cases (lookup_nil g s.sender_keys)) [
    | inl e ↦ ground arith
    | inr (keys, e) ↦ ground arith
  ]

  get_channel-view :
      (k : Bytes) → unlinked_answer (get_channel k s) ≡ found group_not_found ((view s).channel k)
  unfolding view get_channel
  get_channel-view k = ground arith

  module _ (order : List ChannelPost → List ChannelPost)
      (permutes : (xs : List ChannelPost) → Perm (order xs) xs)
      (keyed : HasKeyedPosts s.channel_posts) where
    get_channel_posts-view :
        (g : Bytes)
        → (ps : List ChannelPost) × (get_channel_posts order g (pos 0) (pos 0) s ≡ ok ps)
          × ((p : ChannelPost) → Mem p ps ↔ ((view s).post g p.post_id ≡ some p))
    unfolding view get_channel_posts
    get_channel_posts-view g = elim (Option-cases (lookup_nil g s.channel_posts)) [
      | inl e ↦ ([], ground arith, λ p. (λ x. absurd (not-mem-nil x), λ x. absurd (ground arith)))
      | inr (m, e) ↦
          let kept : IsKeyed m = rw e at (keyed g) in
          (
            order (values m),
            rw (e, get_channel_posts) (posts_window-all (order (values m))),
            λ p. rw e (
              λ x. (mem-lookup p m kept).0 ((Perm.mem_iff (permutes (values m))).0 x),
              λ x. (Perm.mem_iff (permutes (values m))).1 ((mem-lookup p m kept).1 x),
            ),
          )
    ]

    Answers-view : Answers order s (view s)
    unfolding view get_contact message_count get_peer
    Answers-view = record {
      contact = λ k. refl;
      messages = get_messages-view;
      count = λ k. refl;
      peer = λ k. refl;
      config = get_config-view;
      blacklisted = is_blacklisted-view;
      group = get_group-view;
      sender_key = get_sender_key-view;
      channel = get_channel-view;
      posts = get_channel_posts-view;
    }

new-HasKeyedPosts : HasKeyedPosts new_memory_storage.channel_posts
unfolding new_memory_storage lookup_nil lookup
new-HasKeyedPosts g = tt

-- From the empty store, every sequence of calls that add, save, set or delete a record succeeds at every
-- call, and the getters of the resulting store return what the abstract store, which has one function for
-- each kind of record and no maps, has after the same writes: GetContact, GetMessages without a limit,
-- MessageCount, GetPeer, GetConfig, IsBlacklisted, GetGroup, GetSenderKey and GetChannel, a missing record
-- as each reports it, and GetChannelPosts without a limit, which lists exactly the posts of the channel. Of
-- the id of a channel's latest post nothing is stated. A range over a map of posts is in any order.
pub write_all-Answers :
    (order : List ChannelPost → List ChannelPost) (ops : List Op)
    → ((xs : List ChannelPost) → Perm (order xs) xs)
    → (s : MemoryStorage) × (write_all ops new_memory_storage ≡ (s, ok tt))
      × Answers order s (steps ops empty_view)
write_all-Answers order ops permutes =
    let (s, e, v) = write_all-view ops in
    let keyed : HasKeyedPosts s.channel_posts =
      subst (λ r. HasKeyedPosts r.0.channel_posts) e
        (write_all-HasKeyedPosts ops new_memory_storage new-HasKeyedPosts) in
    (s, e, subst (Answers order s) v (Answers-view s order permutes keyed))
