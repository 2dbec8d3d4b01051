-- ===== src/Storage/Posts.antt =====
-- The posts of a channel in the store in memory stand under their own ids (pkg/storage/memory.go).
use mathlib.Core.List.{Mem, mem-cons, mem-cons_self, mem-cons_of_mem, not-mem-nil}
use mathlib.Core.Logic.Or
use babylontower.Prelude.{
  ◌≡◌, ◌↔◌, refl, sym, subst, ap, ◌∙◌, none, some, List, [], ◌∷◌, Bytes, bytes_dec, arith, inl, inr,
  Option-cases, Result-cases, ℕ_discrete, if_pos, if_neg,
}
use babylontower.Prelude.Assoc.{Assoc, lookup, insert, values, lookup-insert, lookup-insert_other}
use babylontower.Storage.Records.{ChannelPost, ChannelState}
use babylontower.Groups.State.{PbGroupState}
use babylontower.SenderKeys.Key.{SenderKeyDistribution}
use babylontower.Storage.Runs.{write_all}
use babylontower.Storage.Memory.{
  MemoryStorage, NilMap, lookup_nil, entries, save_group, save_sender_key, delete_sender_key,
  save_channel, save_channel_post, add_contact, delete_contact, add_message, delete_messages,
  add_peer, delete_peer, set_config, delete_config, blacklist_peer, remove_from_blacklist,
  delete_group, delete_all_sender_keys, delete_channel,
}
use babylontower.Storage.Spec.{
  Op, contact_added, message_added, peer_added, config_set, peer_blacklisted, group_saved,
  sender_key_saved, channel_saved, post_saved, contact_deleted, messages_deleted, peer_deleted,
  config_deleted, unblacklisted, group_deleted, sender_keys_deleted, channel_deleted,
  sender_key_deleted,
}
use babylontower.Storage.Refinement.{write}

-- Every post stands once, under its id.
abbrev pub IsKeyed : Assoc Bytes ChannelPost → Type 0
IsKeyed [] = Unit
IsKeyed ((k, p) ∷ m) = (k ≡ p.post_id) × (lookup bytes_dec k m ≡ none) × IsKeyed m

insert-IsKeyed :
    (p : ChannelPost) (m : Assoc Bytes ChannelPost)
    → IsKeyed m
    → IsKeyed (insert bytes_dec p.post_id p m)
unfolding insert lookup
insert-IsKeyed p [] h = (refl, refl, tt)
insert-IsKeyed p ((k, q) ∷ m) h = elim (bytes_dec k p.post_id) [
  | yes e ↦ rw (if_pos _ e) (refl, subst (λ j. lookup bytes_dec j m ≡ none) e h.1, h.2)
  | no n ↦
      rw (if_neg _ n)
        (h.0, ground (arith, lookup-insert bytes_dec p.post_id k p m, h.1), insert-IsKeyed p m h.2)
]

lookup-mem :
    (k : Bytes) (p : ChannelPost) (m : Assoc Bytes ChannelPost)
    → lookup bytes_dec k m ≡ some p
    → Mem p (values m)
unfolding lookup
lookup-mem k p [] e = absurd (ground arith)
lookup-mem k p ((j, q) ∷ m) e = elim (bytes_dec j k) [
  | yes r ↦ let same : q ≡ p = ground arith in rw same mem-cons_self
  | no n ↦ mem-cons_of_mem q (lookup-mem k p m (ground arith))
]

ChannelPost-discrete : Discrete ChannelPost
ChannelPost-discrete = hlevel ℕ_discrete

lookup-prop :
    (p : ChannelPost) (m : Assoc Bytes ChannelPost) → IsProp (lookup bytes_dec p.post_id m ≡ some p)
lookup-prop p m = hlevel ChannelPost-discrete

lookup-of_mem :
    (p : ChannelPost) (m : Assoc Bytes ChannelPost)
    → IsKeyed m
    → Mem p (values m)
    → lookup bytes_dec p.post_id m ≡ some p
unfolding lookup
lookup-of_mem p [] h x = absurd (not-mem-nil x)
lookup-of_mem p ((k, q) ∷ m) h x =
    Or.elim (lookup-prop p ((k, q) ∷ m)) (mem-cons.0 x)
      (λ e. let id : k ≡ p.post_id = h.0 ∙ ap (λ z. z.post_id) (sym e) in ground arith)
      (λ rest.
        let found = lookup-of_mem p m h.2 rest in
        elim (bytes_dec k p.post_id) [
          | yes e ↦
              let gone = subst (λ j. lookup bytes_dec j m ≡ none) e h.1 in absurd (ground arith)
          | no n ↦ ground arith
        ])

-- The posts of a listing are those that a lookup of their ids finds.
pub mem-lookup :
    (p : ChannelPost) (m : Assoc Bytes ChannelPost)
    → IsKeyed m
    → Mem p (values m) ↔ (lookup bytes_dec p.post_id m ≡ some p)
mem-lookup p m h = (lookup-of_mem p m h, lookup-mem p.post_id p m)

save_group-channel_posts :
    (g : PbGroupState) (s : MemoryStorage) → (save_group g s).0.channel_posts ≡ s.channel_posts
unfolding save_group
save_group-channel_posts g s = elim (Option-cases s.groups) [
  | inl e ↦ ground arith
  | inr (m, e) ↦ ground arith
]

save_sender_key-channel_posts :
    (k : SenderKeyDistribution) (s : MemoryStorage)
    → (save_sender_key k s).0.channel_posts ≡ s.channel_posts
unfolding save_sender_key
save_sender_key-channel_posts k s = elim (Option-cases s.sender_keys) [
  | inl e ↦ ground arith
  | inr (m, e) ↦ ground arith
]

save_channel-channel_posts :
    (c : ChannelState) (s : MemoryStorage) → (save_channel c s).0.channel_posts ≡ s.channel_posts
unfolding save_channel
save_channel-channel_posts c s = elim (Option-cases s.channels) [
  | inl e ↦ ground arith
  | inr (m, e) ↦ ground arith
]

delete_sender_key-channel_posts :
    (g k : Bytes) (s : MemoryStorage) → (delete_sender_key g k s).0.channel_posts ≡ s.channel_posts
unfolding delete_sender_key
delete_sender_key-channel_posts g k s = elim (Option-cases s.sender_keys) [
  | inl e ↦ ground arith
  | inr (m, e) ↦ elim (Option-cases (lookup bytes_dec g m)) [
    | inl f ↦ ground arith
    | inr (keys, f) ↦ ground arith
  ]
]

-- The posts of every channel stand under their ids.
abbrev pub HasKeyedPosts : NilMap (Assoc Bytes ChannelPost) → Type 0
HasKeyedPosts posts = (g : Bytes) → IsKeyed (entries (lookup_nil g posts))

save_channel_post-HasKeyedPosts :
    (p : ChannelPost) (s : MemoryStorage)
    → HasKeyedPosts s.channel_posts
    → HasKeyedPosts (save_channel_post p s).0.channel_posts
unfolding save_channel_post lookup_nil
save_channel_post-HasKeyedPosts p s h g = elim (Option-cases s.channel_posts) [
  | inl e ↦ rw (e, save_channel_post) (h g)
  | inr (m, e) ↦
      let posts = insert bytes_dec p.post_id p (entries (lookup bytes_dec p.channel_id m)) in
      let kept : (j : Bytes) → IsKeyed (entries (lookup bytes_dec j m)) = λ j. rw e at (h j) in
      rw (e, save_channel_post)
        (elim (bytes_dec p.channel_id g) [
          | yes q ↦
              let same : lookup bytes_dec g (insert bytes_dec p.channel_id posts m) ≡ some posts =
                ground (arith, lookup-insert bytes_dec p.channel_id g posts m) in
              rw same (insert-IsKeyed p _ (kept p.channel_id))
          | no n ↦ rw (lookup-insert_other bytes_dec p.channel_id g posts m n) (kept g)
        ])
]

-- No call but `SaveChannelPost` changes the posts.
write-HasKeyedPosts :
    (op : Op) (s : MemoryStorage)
    → HasKeyedPosts s.channel_posts
    → HasKeyedPosts (write op s).0.channel_posts
unfolding write add_contact delete_contact add_message delete_messages add_peer delete_peer
    set_config delete_config blacklist_peer remove_from_blacklist delete_group
    delete_all_sender_keys delete_channel
write-HasKeyedPosts (contact_added c) s h = h
write-HasKeyedPosts (message_added k e) s h = h
write-HasKeyedPosts (peer_added p) s h = h
write-HasKeyedPosts (config_set k x) s h = h
write-HasKeyedPosts (peer_blacklisted now k reason) s h = h
write-HasKeyedPosts (group_saved g) s h = subst HasKeyedPosts (sym (save_group-channel_posts g s)) h
write-HasKeyedPosts (sender_key_saved k) s h =
    subst HasKeyedPosts (sym (save_sender_key-channel_posts k s)) h
write-HasKeyedPosts (channel_saved c) s h =
    subst HasKeyedPosts (sym (save_channel-channel_posts c s)) h
write-HasKeyedPosts (post_saved p) s h = save_channel_post-HasKeyedPosts p s h
write-HasKeyedPosts (contact_deleted k) s h = h
write-HasKeyedPosts (messages_deleted k) s h = h
write-HasKeyedPosts (peer_deleted k) s h = h
write-HasKeyedPosts (config_deleted k) s h = h
write-HasKeyedPosts (unblacklisted k) s h = h
write-HasKeyedPosts (group_deleted k) s h = h
write-HasKeyedPosts (sender_keys_deleted k) s h = h
write-HasKeyedPosts (channel_deleted k) s h = h
write-HasKeyedPosts (sender_key_deleted g k) s h =
    subst HasKeyedPosts (sym (delete_sender_key-channel_posts g k s)) h

pub write_all-HasKeyedPosts :
    (ops : List Op) (s : MemoryStorage)
    → HasKeyedPosts s.channel_posts
    → HasKeyedPosts (write_all ops s).0.channel_posts
unfolding write_all
write_all-HasKeyedPosts [] s h = h
write_all-HasKeyedPosts (op ∷ ops) s h =
    let next = write-HasKeyedPosts op s h in
    elim (Result-cases (write op s).1) [
      | inl (u, e) ↦ rw (e, write_all) (write_all-HasKeyedPosts ops (write op s).0 next)
      | inr (x, e) ↦ rw (e, write_all) next
    ]
