-- ===== src/Storage/Tests.antt =====
-- Runs of the store in memory.
use mathlib.Core.List.Perm
use babylontower.Prelude.{
  ℕ, ◌≡◌, refl, some, List, [], ◌∷◌, Bytes, bytes_dec, ok, err, arith, codes,
}
use babylontower.Prelude.Int.{pos, negsuc}
use babylontower.Prelude.Assoc.{lookup, insert, delete}
use babylontower.Storage.Records.{
  no_content, SignedEnvelope, ChannelState, ChannelPost, slice_out_of_range, nil_map,
}
use babylontower.Groups.State.{PbGroupState}
use babylontower.Storage.Memory.{
  MemoryStorage, new_memory_storage, add_message, save_group, delete_messages, delete_sender_key,
  save_channel, save_channel_post, clone, clear, set_config,
}
use babylontower.Storage.Reading.{get_messages, get_latest_channel_post_cid, get_config}
use babylontower.Storage.Spec.{
  Op, message_added, messages_deleted, channel_saved, post_saved, sender_key_deleted, config_set,
  steps, empty_view,
}
use babylontower.Storage.Refinement.{write}
use babylontower.Storage.Runs.{write_all}
use babylontower.Storage.Answers.{Answers, write_all-Answers}
use babylontower.Storage.Pages.{page, get_messages-steps}

abbrev friend : Bytes
friend = 1 ∷ 2 ∷ []

abbrev letter : ℕ → SignedEnvelope
letter n = record {
  envelope = n ∷ [];
  signature = [];
  sender_pubkey = friend;
  encrypted_ephemeral_priv = [];
}

abbrev news : ChannelState
news = record {
  channel_id = 9 ∷ [];
  name = codes "news";
  description = [];
  avatar_cid = [];
  channel_type = pos 0;
  owner_pubkey = friend;
  created_at = 1;
  updated_at = 1;
  latest_post_cid = [];
  subscriber_count = 0;
  state_signature = [];
}

abbrev post : ℕ → Bytes → ChannelPost
post n previous = record {
  post_id = n ∷ [];
  channel_id = 9 ∷ [];
  author_pubkey = friend;
  timestamp = n;
  content = no_content;
  previous_post_cid = previous;
  signature = [];
}

abbrev run : List Op
run =
    message_added friend (letter 1)
    ∷ messages_deleted friend
    ∷ message_added friend (letter 2)
    ∷ message_added friend (letter 3)
    ∷ message_added friend (letter 4)
    ∷ channel_saved news
    ∷ post_saved (post 5 (7 ∷ []))
    ∷ sender_key_deleted friend friend
    ∷ config_set friend friend
    ∷ []

write_all-Answers_example :
    (s : MemoryStorage) × (write_all run new_memory_storage ≡ (s, ok tt))
    × Answers (λ posts. posts) s (steps run empty_view)
write_all-Answers_example = write_all-Answers (λ posts. posts) run (λ posts. Perm.rfl)

get_messages-steps_example :
    get_messages friend (pos 1) (pos 1) (write_all run new_memory_storage).0
    ≡ ok (page 1 1 ((steps run empty_view).messages friend))
get_messages-steps_example = get_messages-steps run friend 1 1 (omega arith)

second_of_three :
    get_messages friend (pos 1) (pos 1) (write_all run new_memory_storage).0 ≡ ok (letter 3 ∷ [])
unfolding get_messages write_all write new_memory_storage add_message delete_messages save_channel
    save_channel_post delete_sender_key set_config lookup insert delete bytes_dec
second_of_three = refl

negative_offset :
    get_messages friend (pos 1) (negsuc 0) (write_all run new_memory_storage).0
    ≡ err slice_out_of_range
unfolding get_messages write_all write new_memory_storage add_message delete_messages save_channel
    save_channel_post delete_sender_key set_config lookup insert delete bytes_dec
negative_offset = refl

-- The latest content id of a channel is the one before the latest post.
latest_is_previous :
    get_latest_channel_post_cid (9 ∷ []) (write_all run new_memory_storage).0 ≡ some (7 ∷ [])
unfolding get_latest_channel_post_cid write_all write new_memory_storage add_message delete_messages
    save_channel save_channel_post delete_sender_key set_config lookup insert delete bytes_dec
latest_is_previous = refl

-- `Clear` keeps the configuration.
kept_by_clear : get_config friend (clear (write_all run new_memory_storage).0) ≡ friend
unfolding get_config clear write_all write new_memory_storage add_message delete_messages
    save_channel save_channel_post delete_sender_key set_config lookup insert delete bytes_dec
kept_by_clear = refl

abbrev club : PbGroupState
club = record {
  group_id = 8 ∷ [];
  epoch = 1;
  name = [];
  description = [];
  avatar_cid = [];
  group_type = pos 0;
  members = [];
  creator_pubkey = friend;
  created_at = 1;
  updated_at = 1;
  state_signature = [];
  previous_hash = [];
}

-- A clone has no map of the groups.
clone_panics : (save_group club (clone new_memory_storage)).1 ≡ err nil_map
unfolding save_group clone new_memory_storage
clone_panics = refl
