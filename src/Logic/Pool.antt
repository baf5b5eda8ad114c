-- ===== src/Logic/Pool.antt =====
-- JobPool (MMO/Server/Core/LogicManager.h): what a recycled job carries.
use mmorpg_server.Base.{◌≤◌, ◌≡◌, refl, List, [], ◌∷◌, arith, length}
use mmorpg_server.Logic.{Job, job_pool_limit, new_job, pool_pop, pool_push}

-- A job with no session and no payload.
abbrev pub IsBlank : Job → Type 0
IsBlank job = (job.session ≡ 0) × (job.payload ≡ [])

abbrev pub AllBlank : List Job → Type 0
AllBlank [] = Unit {0}
AllBlank (job ∷ pool) = IsBlank job × AllBlank pool

pub record IsJobPool (pool : List Job) : Type 0 where
  pub blank : AllBlank pool
  pub bounded : length pool ≤ job_pool_limit

-- A job that comes back leaves no session or payload for its next user, and the pool holds at most
-- 1,000 jobs.
pub pool_push-IsJobPool :
    (job : Job) (pool : List Job) → IsJobPool pool → IsJobPool (pool_push job pool)
unfolding pool_push
pool_push-IsJobPool job pool v = ground arith

-- What Pop hands out is blank, from the pool or new.
pub pool_pop-IsBlank :
    (pool : List Job) → IsJobPool pool → IsBlank (pool_pop pool).0 × IsJobPool (pool_pop pool).1
unfolding pool_pop new_job
pool_pop-IsBlank [] v = ((refl, refl), v)
pool_pop-IsBlank (job ∷ pool) v =
    (v.blank.0, record { blank = v.blank.1; bounded = omega (arith, v) })
