-- ===== src/Updates/Moves.antt =====
-- What a handler of server/src/handlers/updates.rs does to the server, by the calls that it is made
-- of: one rule for each way to make a handler.
use luminos.Prelude.{Result, ok, err}
use luminos.State.Db.{Store}
use luminos.Discovery.Service.{Check}
use luminos.Agent.Transport.{Log}
use luminos.Download.Files.{Io}
use luminos.Updates.Server.{
  Response, Site, Server, Handler, continue, lift, ◌>>=◌, on_store, ignore_store, on_check, on_disk,
  on_agent, clock,
}

-- A relation that chains of calls stay in.
pub record IsPath (R : Server → Server → Type 0) : Type 0 where
  pub here : (s : Server) → R s s
  pub chain : (s t u : Server) → R s t → R t u → R s u

-- `m` leads from each server to a related one, whether it returns early or not.
pub record Moves {A : Type 0} (R : Server → Server → Type 0) (m : Handler A) : Type 0 where
  pub along : (s : Server) → R s (m s).1

module _ {R : Server → Server → Type 0} (p : IsPath R) where
  pub Moves-lift : {A : Type 0} (r : Result Response A) → Moves R (lift r)
  unfolding lift
  Moves-lift r = record { along = p.here }

  pub Moves-clock : (site : Site) → Moves R (clock site)
  unfolding clock
  Moves-clock site = record { along = p.here }

module _ {Q R T : Server → Server → Type 0} (ends : (s t : Server) → Q s t → T s t)
    (chain : (s t u : Server) → Q s t → R t u → T s u) where
  continue-along :
      {A B : Type 0} (f : A → Handler B) (r : Result Response A) (s t : Server)
      → ((a : A) → Moves R (f a))
      → Q s t
      → T s (continue r f t).1
  continue-along f (ok a) s t rest q = chain s t (f a t).1 q ((rest a).along t)
  continue-along f (err r) s t rest q = ends s t q

  -- A call in `Q`, and behind it what is in `R`.
  pub Moves-then :
      {A B : Type 0} (m : Handler A) (f : A → Handler B)
      → Moves Q m
      → ((a : A) → Moves R (f a))
      → Moves T (m >>= f)
  unfolding ◌>>=◌
  Moves-then m f first rest = record {
    along = λ s. continue-along f (m s).0 s (m s).1 rest (first.along s);
  }

pub Moves-bind :
    {R : Server → Server → Type 0} (p : IsPath R) {A B : Type 0} (m : Handler A) (f : A → Handler B)
    → Moves R m
    → ((a : A) → Moves R (f a))
    → Moves R (m >>= f)
Moves-bind p = Moves-then (λ s t h. h) p.chain

module _ {R : Server → Server → Type 0} where
  pub Moves-on_store :
      {A : Type 0} (m : Store A) (failed : Response)
      → ((s : Server) → R s (record s { db = (m s.db).1 }))
      → Moves R (on_store m failed)
  unfolding on_store
  Moves-on_store m failed h = record { along = h }

  pub Moves-ignore_store :
      {A : Type 0} (m : Store A)
      → ((s : Server) → R s (record s { db = (m s.db).1 }))
      → Moves R (ignore_store m)
  unfolding ignore_store
  Moves-ignore_store m h = record { along = h }

  pub Moves-on_check :
      {A : Type 0} (m : Check A) (failed : Response)
      → ((s : Server) → R s (record s { db = (m s.db).1 }))
      → Moves R (on_check m failed)
  unfolding on_check
  Moves-on_check m failed h = record { along = h }

  pub Moves-on_disk :
      {A : Type 0} (m : Io A) (failed : Response)
      → ((s : Server) → R s (record s { world = (m s.world).1 }))
      → Moves R (on_disk m failed)
  unfolding on_disk
  Moves-on_disk m failed h = record { along = h }

  pub Moves-on_agent :
      {A E : Type 0} (m : Log → Result E A × Log)
      → ((s : Server) → R s (record s { log = (m s.log).1 }))
      → Moves R (on_agent m)
  unfolding on_agent
  Moves-on_agent m h = record { along = h }
