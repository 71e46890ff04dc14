-- ===== src/Server/Threads.antt =====
-- A thread of hw1_server/server.py: the loop of `handle_user` on what its connection gives.
use me2u.Base.{
  arith, true, ℕ, ◌≤◌, ◌≡◌, refl, ap, ◌∙◌, Bool, false, List, [], ◌∷◌, ◌++◌, elem, All, length,
  take_all, if◌then◌else◌,
}
use me2u.CString.{Bytes}
use me2u.System.{Machine, Read, Result, got, waiting, crashed, continue_with, pure}
use me2u.Protocol.{ending}
use me2u.Server.{User, Server, eq_text, on_data, received, recv_more, handle_user}
use me2u.Server.Promise.{
  Request, hello, registers, lists, says, confirms, leaves, request_bytes, IsProper, IsOpen, served,
}
use me2u.Server.Handlers.{on_data-served}

module _ (m : Machine Server) (conn addr : ℕ)
    (stands : elem conn m.globals.closed_conns ≡ false) where
  -- One round, on data that the buffer of `recv` takes.
  pub handle_user-round :
      (bytes : Bytes) (rest : List Read)
      → length bytes ≤ 4096
      → eq_text bytes [] ≡ false
      → handle_user conn addr (got bytes ∷ rest) m
        ≡ continue_with
            (on_data conn addr bytes m)
            (λ on. if on then handle_user conn addr rest else pure tt)
  unfolding handle_user received
  handle_user-round bytes rest fits some_bytes =
      rw (stands, take_all 4096 bytes fits) (rw some_bytes refl)

pub request-some : (r : Request) → eq_text (request_bytes r ++ ending) [] ≡ false
request-some hello = refl
request-some (registers name) = refl
request-some lists = refl
request-some (says name text) = refl
request-some (confirms name) = refl
request-some leaves = refl

-- What the client of a user sends, one message after the other.
abbrev pub request_reads : List Request → List Read
request_reads [] = []
request_reads (r ∷ rs) = got (request_bytes r ++ ending) ∷ request_reads rs

-- The server behind them all.
abbrev pub served_all : User → List Request → Machine Server → Machine Server
served_all me [] m = m
served_all me (r ∷ rs) m = served_all me rs (served me r m)

-- Each of them is proper when it comes, fits the buffer, and finds the connections open.
abbrev pub AreProper : User → List Request → Machine Server → Type 0
AreProper me [] m = Unit
AreProper me (r ∷ rs) m =
    IsProper m.globals.users me r
    × (length (request_bytes r ++ ending) ≤ 4096)
    × IsOpen m.globals.closed_conns me
    × All (IsOpen m.globals.closed_conns) m.globals.users
    × AreProper me rs (served me r m)

pub handle_user-served :
    (me : User) (r : Request) (rest : List Read) (m : Machine Server)
    → IsProper m.globals.users me r
    → length (request_bytes r ++ ending) ≤ 4096
    → IsOpen m.globals.closed_conns me
    → All (IsOpen m.globals.closed_conns) m.globals.users
    → handle_user me.conn me.addr (got (request_bytes r ++ ending) ∷ rest) m
      ≡ handle_user me.conn me.addr rest (served me r m)
handle_user-served me r rest m p fits mine all =
    handle_user-round m me.conn me.addr mine (request_bytes r ++ ending) rest fits (request-some r)
    ∙ ap
        (λ res.
          continue_with res
            (λ (on : Bool). if on then handle_user me.conn me.addr rest else pure tt))
        (on_data-served m me all mine r p)

-- How the thread stands behind them: behind a leave the next `recv` has raised an exception.
abbrev pub thread_end : List Request → Result (Unit {0})
thread_end [] = waiting
thread_end (leaves ∷ rs) = crashed
thread_end (hello ∷ rs) = thread_end rs
thread_end (registers name ∷ rs) = thread_end rs
thread_end (lists ∷ rs) = thread_end rs
thread_end (says name text ∷ rs) = thread_end rs
thread_end (confirms name ∷ rs) = thread_end rs

recv_more-IsOpen :
    (conn : ℕ) (m : Machine Server)
    → elem conn m.globals.closed_conns ≡ false
    → recv_more conn m ≡ (m, waiting)
unfolding recv_more
recv_more-IsOpen conn m h = rw h refl

recv_more-closed :
    (conn : ℕ) (m : Machine Server)
    → elem conn m.globals.closed_conns ≡ true
    → recv_more conn m ≡ (m, crashed)
unfolding recv_more
recv_more-closed conn m h = rw h refl

closed_self : (conn : ℕ) (cs : List ℕ) → elem conn (conn ∷ cs) ≡ true
closed_self conn cs = ground arith

-- On the messages of one client, each in one `recv`, with no more to come yet: the thread sends what the
-- server promises for each, one after the other, leaves the users that it promises, and waits for more, but
-- behind a leave it ends with the exception of the next `recv`, on the connection that it has closed. Each
-- message is proper when it comes and fits the buffer, and no connection of a user has been closed then.
pub handle_user_session :
    (me : User) (rs : List Request) (m : Machine Server)
    → IsOpen m.globals.closed_conns me
    → AreProper me rs m
    → handle_user me.conn me.addr (request_reads rs) m ≡ (served_all me rs m, thread_end rs)
unfolding handle_user
handle_user_session me [] m stands p = recv_more-IsOpen me.conn m stands
handle_user_session me (leaves ∷ []) m stands (p, fits, mine, all, later) =
    handle_user-served me leaves [] m p fits mine all
    ∙ recv_more-closed me.conn (served me leaves m) (closed_self me.conn m.globals.closed_conns)
handle_user_session me (leaves ∷ r ∷ rs) m stands
      (p, fits, mine, all, (p2, fits2, mine2, users2, later)) =
    absurd (cc (closed_self me.conn m.globals.closed_conns, mine2))
handle_user_session me (hello ∷ rs) m stands (p, fits, mine, all, later) =
    handle_user-served me hello (request_reads rs) m p fits mine all
    ∙ handle_user_session me rs (served me hello m) stands later
handle_user_session me (registers name ∷ rs) m stands (p, fits, mine, all, later) =
    handle_user-served me (registers name) (request_reads rs) m p fits mine all
    ∙ handle_user_session me rs (served me (registers name) m) stands later
handle_user_session me (lists ∷ rs) m stands (p, fits, mine, all, later) =
    handle_user-served me lists (request_reads rs) m p fits mine all
    ∙ handle_user_session me rs (served me lists m) stands later
handle_user_session me (says name text ∷ rs) m stands (p, fits, mine, all, later) =
    handle_user-served me (says name text) (request_reads rs) m p fits mine all
    ∙ handle_user_session me rs (served me (says name text) m) stands later
handle_user_session me (confirms name ∷ rs) m stands (p, fits, mine, all, later) =
    handle_user-served me (confirms name) (request_reads rs) m p fits mine all
    ∙ handle_user_session me rs (served me (confirms name) m) stands later
