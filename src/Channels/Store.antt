-- ===== src/Channels/Store.antt =====
-- The part of the interface `Storage` of pkg/storage/storage.go that pkg/groups/channel.go writes
-- through, with what it promises of the channels, and the store in memory as an implementation.
use mathlib.Core.Path.{fun_ext}
use babylontower.Prelude.{
  if_pos, if_neg, ◌≡◌, ◌≢◌, refl, sym, ap, ◌∙◌, Option, none, some, Bytes, Bool, true, false,
  bytes_dec, Result, ok, err, Option-cases, inl, inr, arith,
}
use babylontower.Prelude.Assoc.{insert, lookup, lookup-insert_other}
use babylontower.Storage.Records.{ChannelState, ChannelPost}
use babylontower.Storage.Memory.{
  MemoryStorage, NilMap, lookup_nil, delete_nil, save_channel, save_channel_post, delete_channel,
  touch_channel,
}
use babylontower.Storage.Spec.{update}
use babylontower.Storage.Refinement.{insert-update, delete-update}

-- `stored` is what the store has of a channel; `false` is an error of a call.
pub record ChannelStore : Type 1 where
  pub State : Type 0
  pub stored : State → Bytes → Option ChannelState
  pub save : ChannelState → State → State × Bool
  pub save_post : ChannelPost → State → State × Bool
  pub remove : Bytes → State → State × Bool

-- The laws hold of calls that report no error.
pub record IsChannelStore (st : ChannelStore) : Type 0 where
  pub stored-save :
      (c : ChannelState) (s s' : st.State)
      → st.save c s ≡ (s', true)
      → st.stored s' ≡ update c.channel_id (some c) (st.stored s)
  pub stored-save_post :
      (p : ChannelPost) (s s' : st.State)
      → st.save_post p s ≡ (s', true)
      → (k : Bytes) → p.channel_id ≢ k
      → st.stored s' k ≡ st.stored s k
  pub stored-remove :
      (k : Bytes) (s s' : st.State)
      → st.remove k s ≡ (s', true)
      → st.stored s' ≡ update k none (st.stored s)

abbrev is_ok : {E A : Type 0} → Result E A → Bool
is_ok (ok a) = true
is_ok (err e) = false

unfoldable pub memory_stored : MemoryStorage → Bytes → Option ChannelState
unfolding lookup_nil
memory_stored s k = lookup_nil k s.channels

abbrev succeeds :
    {E : Type 0}
    → (MemoryStorage → MemoryStorage × Result E (Unit {0}))
    → MemoryStorage
    → MemoryStorage × Bool
succeeds write s = ((write s).0, is_ok (write s).1)

-- The store in memory.
abbrev pub memory_channels : ChannelStore
memory_channels = record {
  State = MemoryStorage;
  stored = memory_stored;
  save = λ c. succeeds (save_channel c);
  save_post = λ p. succeeds (save_channel_post p);
  remove = λ k. succeeds (delete_channel k);
}

-- What a store has of the channels, from the map alone.
abbrev answers : NilMap ChannelState → Bytes → Option ChannelState
answers m k = lookup_nil k m

memory-stored-save :
    (c : ChannelState) (s s' : MemoryStorage)
    → succeeds (save_channel c) s ≡ (s', true)
    → memory_stored s' ≡ update c.channel_id (some c) (memory_stored s)
unfolding memory_stored lookup_nil save_channel
memory-stored-save c s s' e = elim (Option-cases s.channels) [
  | inl n ↦ absurd (ground arith)
  | inr (m, q) ↦
      let saved : (save_channel c s).0.channels ≡ some (insert bytes_dec c.channel_id c m) =
        rw (q, save_channel) refl in
      sym (ap (λ p. memory_stored p.0) e)
      ∙ ap answers saved
      ∙ insert-update c.channel_id c m
      ∙ ap (λ x. update c.channel_id (some c) (answers x)) (sym q)
]

none-update : (k : Bytes) (f : Bytes → Option ChannelState) → f k ≡ none → f ≡ update k none f
none-update k f e =
    fun_ext
      λ j. elim (bytes_dec k j) [ yes q ↦ rw (if_pos _ q, ← q) e | no n ↦ rw (if_neg _ n) refl ]

-- A post changes no other channel.
touch-answers :
    (p : ChannelPost) (m : NilMap ChannelState) (k : Bytes)
    → p.channel_id ≢ k
    → answers (touch_channel p m) k ≡ answers m k
unfolding lookup_nil touch_channel
touch-answers p none k n = refl
touch-answers p (some m) k n = elim (Option-cases (lookup bytes_dec p.channel_id m)) [
  | inl e ↦ rw (e, touch_channel) refl
  | inr (x, e) ↦ rw (e, touch_channel) (lookup-insert_other bytes_dec p.channel_id k _ m n)
]

delete-answers :
    (k : Bytes) (m : NilMap ChannelState) → answers (delete_nil k m) ≡ update k none (answers m)
unfolding lookup_nil delete_nil
delete-answers k none = none-update k (answers none) refl
delete-answers k (some m) = delete-update k m

memory-stored-save_post :
    (p : ChannelPost) (s s' : MemoryStorage)
    → succeeds (save_channel_post p) s ≡ (s', true)
    → (k : Bytes) → p.channel_id ≢ k
    → memory_stored s' k ≡ memory_stored s k
unfolding memory_stored lookup_nil save_channel_post
memory-stored-save_post p s s' e k n = elim (Option-cases s.channel_posts) [
  | inl q ↦ absurd (ground arith)
  | inr (m, q) ↦
      let saved : (save_channel_post p s).0.channels ≡ touch_channel p s.channels =
        rw (q, save_channel_post) refl in
      sym (ap (λ r. memory_stored r.0 k) e)
      ∙ ap (λ x. answers x k) saved
      ∙ touch-answers p s.channels k n
]

memory-stored-remove :
    (k : Bytes) (s s' : MemoryStorage)
    → succeeds (delete_channel k) s ≡ (s', true)
    → memory_stored s' ≡ update k none (memory_stored s)
unfolding memory_stored lookup_nil delete_channel delete_nil
memory-stored-remove k s s' e = sym (ap (λ r. memory_stored r.0) e) ∙ delete-answers k s.channels

-- The store in memory keeps the promise, also where its maps are nil.
pub memory_channels-IsChannelStore : IsChannelStore memory_channels
memory_channels-IsChannelStore = record {
  stored-save = memory-stored-save;
  stored-save_post = memory-stored-save_post;
  stored-remove = memory-stored-remove;
}
