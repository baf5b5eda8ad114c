-- ===== src/SessionPool/Once.antt =====
-- How often a session is handed out (MMO/Server/Network/Source/SessionManager.cpp).
use mmorpg_server.Base.{
  ℕ, zero, suc, ◌+◌, ◌≡◌, refl, ap, ◌∙◌, true, ◌&&◌, List, [], ◌∷◌, ◌++◌, arith, ltb, leb, ◌==◌,
  if◌then◌else◌, Bool-cases, inl, inr,
}
use mmorpg_server.SessionPool.{
  SessionManager, SessionEvent, Holding, acquires, releases, no_sessions, init, acquire_from,
  release_session, is_held, drop_held, take_held, session_step, session_run, start,
}

-- How often a session stands in a list.
abbrev pub count : ℕ → List ℕ → ℕ
count s [] = 0
count s (x ∷ xs) = if x == s then suc (count s xs) else count s xs

pub count-append : (s : ℕ) (xs ys : List ℕ) → count s (xs ++ ys) ≡ count s xs + count s ys
count-append s [] ys = omega arith
count-append s (x ∷ xs) ys = ground (arith, count-append s xs ys)

count-drop_held :
    (s t : ℕ) (held : List ℕ)
    → is_held held t ≡ true
    → count s (drop_held held t) + count s (t ∷ []) ≡ count s held
count-drop_held s t [] e = ground (arith, e)
count-drop_held s t (x ∷ held) e = elim (Bool-cases (x == t)) [
  | inl same ↦ ground (arith, e, same)
  | inr ne ↦ ground (arith, ne, count-drop_held s t held (ground (arith, e, ne)))
]

abbrev pub places : ℕ → Holding → ℕ
places s h = count s h.held + count s h.manager.free_sessions

places-releases : (s t : ℕ) (h : Holding) → places s (session_step (releases t) h) ≡ places s h
unfolding session_step release_session
places-releases s t h = elim (Bool-cases (is_held h.held t)) [
  | inl e ↦
      rw e (
        omega
          (arith, count-drop_held s t h.held e, count-append s h.manager.free_sessions (t ∷ [])))
  | inr e ↦ rw e refl
]

take_free :
    (s : ℕ) (free : List ℕ) (m : SessionManager) (held : List ℕ)
    → m.free_sessions ≡ free
    → places s (take_held (acquire_from free m) held) ≡ count s held + count s free
unfolding acquire_from
take_free s [] m held e = ap (λ xs. count s held + count s xs) e
take_free s (x ∷ free) m held e = ground arith

places-acquires : (s : ℕ) (h : Holding) → places s (session_step acquires h) ≡ places s h
unfolding session_step
places-acquires s h = take_free s h.manager.free_sessions h.manager h.held refl

places-session_run :
    (s : ℕ) (es : List SessionEvent) (h : Holding) → places s (session_run es h) ≡ places s h
unfolding session_run
places-session_run s [] h = refl
places-session_run s (acquires ∷ es) h =
    places-session_run s es (session_step acquires h) ∙ places-acquires s h
places-session_run s (releases t ∷ es) h =
    places-session_run s es (session_step (releases t) h) ∙ places-releases s t h

pub count-init :
    (s n next : ℕ) (m : SessionManager)
    → count s (init n next m).free_sessions
      ≡ count s m.free_sessions + (if leb next s && ltb s (next + n) then 1 else 0)
unfolding init
count-init s zero next m = ground arith
count-init s (suc n) next m =
    count-init s n (suc next) (record {
      sessions = m.sessions ++ (next ∷ []);
      free_sessions = m.free_sessions ++ (next ∷ []);
    })
    ∙ ground (arith, count-append s m.free_sessions (next ∷ []))

-- Over any sequence of Acquire and Release from Init on, if only a session that is held is released:
-- each of the created sessions is in one place, held once or free once, and no other session is in any.
pub session_run_once :
    (s n next : ℕ) (es : List SessionEvent)
    → places s (session_run es (start n next)) ≡ (if leb next s && ltb s (next + n) then 1 else 0)
unfolding start no_sessions
session_run_once s n next es =
    places-session_run s es (start n next) ∙ omega (arith, count-init s n next no_sessions)
