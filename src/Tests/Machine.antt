-- ===== src/Tests/Machine.antt =====
-- A platform and a small world of MMO/Server to run the models on: coordinates are integers.
use mmorpg_server.Base.{ℕ, ◌+◌, ◌≡◌, refl, Option, none, some, [], arith, true, false}
use mmorpg_server.Base.Int.{ℤ, pos, ◌-ℤ◌, abs, ltb_ℤ, leb_ℤ}
use mmorpg_server.Platform.{Platform, connected}
use mmorpg_server.TimeWheel.{new_wheel}
use mmorpg_server.Game.{Game}
use mmorpg_server.World.{enter_game}

-- The members of a session that the headers do not declare.
pub record Members : Type 0 where
  pub player : Option ℕ
  pub last_tick : ℕ
  pub generation : ℕ

pub lt-not_le_ℤ : (a b : ℤ) → ltb_ℤ a b ≡ true → leb_ℤ b a ≡ false
lt-not_le_ℤ a b e = ground arith

pub le-not_lt_ℤ : (a b : ℤ) → leb_ℤ a b ≡ true → ltb_ℤ b a ≡ false
le-not_lt_ℤ a b e = ground arith

abbrev pub machine : Platform
machine = record {
  Float = ℤ;
  of_int = λ n. n;
  to_int = λ x. x;
  of_bits = pos;
  sub = λ a b. a -ℤ b;
  hypotenuse = λ a b. pos (abs a + abs b);
  lt = ltb_ℤ;
  le = leb_ℤ;
  lt-not_le = lt-not_le_ℤ;
  le-not_lt = le-not_lt_ℤ;
  Ext = Members;
  get_player = λ e. e.player;
  set_player = λ p e. record e { player = some p };
  get_player-set_player = λ p e. refl;
  get_last_tick = λ e. e.last_tick;
  update_last_tick = λ t e. record e { last_tick = t };
  get_last_tick-update = λ t e. refl;
  get_player-update = λ t e. refl;
  set_player_id = λ i s. record s { player_id = i };
  set_player_id_lem = λ i s. refl;
  get_generation = λ e. e.generation;
  vision_range = 1;
  attack_range_mel = pos 50;
  attack_range_radial = pos 80;
}

-- Every session is connected and named by its address.
abbrev pub empty_world : Game machine
empty_world = record {
  heap = λ a. record {
    socket = some a;
    state = connected;
    player_id = pos a;
    x = pos 0;
    y = pos 0;
    ext = record { player = none; last_tick = 0; generation = 0 };
  };
  players = λ a. record { hp = pos 100; max_hp = pos 100; session = 0 };
  next_player = 1;
  grids = λ q. [];
  sessions = [];
  wheel = new_wheel 0;
  sent = [];
  queries = [];
  closed = [];
}

abbrev pub one_player : Game machine
one_player = enter_game machine 1 250 250 empty_world

-- Two players, who see each other.
abbrev pub two_players : Game machine
two_players = enter_game machine 2 350 250 one_player
