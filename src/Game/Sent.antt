-- ===== src/Game/Sent.antt =====
-- What a group of sends leaves: the same message for each target, in order, and nothing else changes.
use mmorpg_server.Base.{ℕ, ◌≡◌, sym, ap, ◌∙◌, List, [], ◌∷◌, ◌++◌, map, append-nil, append_assoc}
use mmorpg_server.Platform.{Platform}
use mmorpg_server.Game.{Game, Message, send, send_all}

module _ (P : Platform) where
  abbrev pub outgoing : List ℕ → Message P.Float → List (ℕ × Message P.Float)
  outgoing ts m = map (λ t. (t, m)) ts

  abbrev pub after_sending : Game P → List (ℕ × Message P.Float) → Game P
  after_sending g ms = record g { sent = g.sent ++ ms }

  pub send_all_lem :
      (ts : List ℕ) (m : Message P.Float) (g : Game P)
      → send_all P ts m g ≡ after_sending g (outgoing ts m)
  unfolding send_all
  send_all_lem [] m g =
      ap (λ (l : List (ℕ × Message P.Float)). record g { sent = l }) (sym (append-nil g.sent))
  send_all_lem (t ∷ ts) m g =
      send_all_lem ts m (send P t m g)
      ∙ ap (λ (l : List (ℕ × Message P.Float)). record g { sent = l })
          (append_assoc g.sent ((t, m) ∷ []) (outgoing ts m))
