-- ===== src/Tests/Handlers.antt =====
-- Runs of the packet handlers (MMO/Server/Core/PacketHandler.cpp).
use mmorpg_server.Base.{
  ℕ, ◌≡◌, refl, sym, ◌∙◌, true, false, some, none, List, [], ◌∷◌, ◌++◌, arith, replicate,
}
use mmorpg_server.Base.Int.{ℤ, pos}
use mmorpg_server.Protocol.{PacketHeader, to_header, c_move, s_login}
use mmorpg_server.Platform.{lobby}
use mmorpg_server.Game.{Game}
use mmorpg_server.World.{handle_move}
use mmorpg_server.World.Subscribed.{IsSubscribed}
use mmorpg_server.Handler.{acting_player, is_state, handle_packet}
use mmorpg_server.Handler.Keeps.{IsOrderly, handle_packet-IsSubscribed}
use mmorpg_server.Handler.Reads.{is_none, handle_packet_reads}
use mmorpg_server.Handler.Relogin.{IsReply, handle_packet_reply_breaks}
use mmorpg_server.Tests.Machine.{machine, two_players}
use mmorpg_server.Tests.Worlds.{two_players-IsSubscribed}

false-ne-true : false ≡ true → ⊥
false-ne-true e = ground (arith, e)

not_lobby : is_state (Game.heap two_players 1).state lobby ≡ false
unfolding mmorpg_server.Game.map_find mmorpg_server.World.enter_game
    mmorpg_server.Grid.insert_to_vision_grids mmorpg_server.Grid.is_invalid
    mmorpg_server.Base.Int.◌+ℤ◌ mmorpg_server.World.get_grid_pos mmorpg_server.Grid.grid_coordinate
    mmorpg_server.Base.Int.int_div mmorpg_server.Grid.insert mmorpg_server.Game.map_set
not_lobby = refl

pub two_players-IsOrderly : IsOrderly machine 1 two_players
unfolding mmorpg_server.Game.map_find mmorpg_server.World.enter_game
    mmorpg_server.Grid.insert_to_vision_grids mmorpg_server.Grid.is_invalid
    mmorpg_server.Base.Int.◌+ℤ◌ mmorpg_server.World.get_grid_pos mmorpg_server.Grid.grid_coordinate
    mmorpg_server.Base.Int.int_div mmorpg_server.Grid.insert mmorpg_server.Game.map_set
two_players-IsOrderly = record {
  acts_in_game = λ acts. refl;
  enters_fresh = λ e. absurd (false-ne-true (sym not_lobby ∙ e));
}

-- To (150, 50).
abbrev pub move_bytes : List ℕ
move_bytes = 150 ∷ 0 ∷ 0 ∷ 0 ∷ 50 ∷ 0 ∷ 0 ∷ 0 ∷ []

may_act : acting_player machine 1 two_players ≡ some 1
unfolding mmorpg_server.Handler.acting_player mmorpg_server.Game.map_find
    mmorpg_server.World.enter_game mmorpg_server.Grid.insert_to_vision_grids
    mmorpg_server.Grid.is_invalid mmorpg_server.Base.Int.◌+ℤ◌ mmorpg_server.World.get_grid_pos
    mmorpg_server.Grid.grid_coordinate mmorpg_server.Base.Int.int_div mmorpg_server.Grid.insert
    mmorpg_server.Game.map_set
may_act = refl

pub walks :
    handle_packet machine 5 0 0 1 (to_header c_move) (some move_bytes) two_players
    ≡ some (handle_move machine 1 (pos 150) (pos 50) two_players)
unfolding to_header mmorpg_server.Protocol.id_number handle_packet
    mmorpg_server.Handler.handle_c_move mmorpg_server.Handler.read_word
    mmorpg_server.Handler.word_of mmorpg_server.Handler.on_map
walks = rw may_act refl

handle_packet-IsSubscribed_example :
    IsSubscribed machine (handle_move machine 1 (pos 150) (pos 50) two_players)
unfolding to_header mmorpg_server.Protocol.id_number
handle_packet-IsSubscribed_example =
    handle_packet-IsSubscribed machine 5 0 0 1 (to_header c_move) (some move_bytes) two_players
      {g' = handle_move machine 1 (pos 150) (pos 50) two_players} two_players-IsSubscribed
      two_players-IsOrderly (λ e. absurd (omega (arith, e))) walks

-- A successful reply that names player 9.
abbrev reply_bytes : List ℕ
reply_bytes = (45 ∷ 0 ∷ 2 ∷ 0 ∷ 1 ∷ []) ++ replicate 36 0 ++ (9 ∷ 0 ∷ 0 ∷ 0 ∷ [])

reply_bytes-IsReply : IsReply reply_bytes reply_bytes (pos 9)
unfolding mmorpg_server.Handler.copy_bytes mmorpg_server.Protocol.struct_size
    mmorpg_server.Handler.login_succeeded mmorpg_server.Handler.read_word
    mmorpg_server.Handler.word_of mmorpg_server.Handler.to_int32
reply_bytes-IsReply = record {
  bits = 9;
  copied = refl;
  success = refl;
  id_bits = refl;
  id_value = refl;
}

handle_packet_reply_breaks_example :
    (g' : Game machine) × (handle_packet machine 5 0 0 1
        (to_header s_login)
        (some reply_bytes)
        two_players
      ≡ some g')
    × ¬ IsSubscribed machine g'
unfolding mmorpg_server.Protocol.id_number to_header mmorpg_server.Game.map_find
    mmorpg_server.World.enter_game mmorpg_server.Grid.insert_to_vision_grids
    mmorpg_server.Grid.is_invalid mmorpg_server.Base.Int.◌+ℤ◌ mmorpg_server.World.get_grid_pos
    mmorpg_server.Grid.grid_coordinate mmorpg_server.Base.Int.int_div mmorpg_server.Grid.insert
    mmorpg_server.Game.map_set
handle_packet_reply_breaks_example =
    handle_packet_reply_breaks machine 5 0 0 1 (to_header s_login) two_players refl
      reply_bytes-IsReply two_players-IsSubscribed refl refl

-- A move packet with two bytes of payload.
handle_packet_reads_example :
    is_none (handle_packet machine 5 0 0 1 (to_header c_move) (some (1 ∷ 0 ∷ [])) two_players)
    ≡ true
unfolding to_header mmorpg_server.Protocol.id_number
handle_packet_reads_example =
    handle_packet_reads machine 5 0 0 1 (to_header c_move) (1 ∷ 0 ∷ []) two_players
