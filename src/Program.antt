-- ===== src/Program.antt =====
-- src/main.cpp, and of src/tcpserver.cpp and src/tcpclient.cpp the constructors and the destructors: the server of
-- the example, its four handlers and what main does in order. Lines of the log are not kept.
pub mod Early
pub mod Echo
pub mod Ends
pub mod Serving
use librapid.Prelude.{ℕ, false, none, List, [], ◌∷◌, ◌++◌, ◌==◌, ◌||◌, if◌then◌else◌, codes}
use librapid.Kernel.{Kernel}
use librapid.Outcome.{Outcome, ok, thrown, stuck, M, pure, terminated, ◌>>=◌, ◌>>◌}
use librapid.World.{World, Handler, user, TcpServer, connection}
use librapid.EventLoop.{caught}
use librapid.EventLoop.Build.{construct_pool}
use librapid.Connection
use librapid.Server.{server, put_server, start, stop, on_connected, on_message, on_write, on_close}
use librapid.Client
use librapid.Handlers.{call}

abbrev line_end : List ℕ
line_end = 13 ∷ 10 ∷ []

abbrev fifty_zeros : List ℕ
fifty_zeros = codes "00000000000000000000000000000000000000000000000000"

-- http_size_100_response
abbrev pub response : List ℕ
response =
    codes "HTTP/1.1 200 OK"
    ++ (line_end
        ++ (codes "Content-Type: text/html"
            ++ (line_end
                ++ (codes "Content-Length: 100"
                    ++ (line_end
                        ++ (codes "Connection: Keep-Alive"
                            ++ (line_end ++ (line_end ++ (fifty_zeros ++ fifty_zeros)))))))))

-- The four lambdas of main, by number.
abbrev pub greets : ℕ
greets = 0

abbrev pub answers : ℕ
answers = 1

abbrev pub repeats : ℕ
repeats = 2

abbrev pub leaves : ℕ
leaves = 3

module _ {K : Kernel} where
  -- Two of them send the response; the other two log the peer of the connection.
  unfoldable pub handlers : ℕ → ℕ → M (World K) (Unit {0})
  unfolding Connection.send connection
  handlers t conn =
      if (t == answers) || (t == repeats)
      then Connection.send conn response
      else (do _ ← connection conn; pure tt)

  -- An exception that leaves a destructor, or main.
  abbrev pub noexcept : {A : Type 0} → Outcome (World K) A → Outcome (World K) A
  noexcept (ok a w) = ok a w
  noexcept (thrown e w) = stuck terminated
  noexcept (stuck f) = stuck f

  -- TcpServer::TcpServer, with the number of threads of the machine.
  unfoldable pub construct_server : (indeterminate concurrency : ℕ) → M (World K) (Unit {0})
  unfolding construct_pool put_server
  construct_server indeterminate concurrency = do
    pool ← construct_pool indeterminate concurrency
    put_server (record {
      pool = pool;
      acceptor = none;
      connected_handler = none;
      read_handler = none;
      write_handler = none;
      close_handler = none;
      locked = false;
      clients = [];
    })

  -- TcpServer::~TcpServer
  unfoldable pub destroy_server : (Handler → ℕ → M (World K) (Unit {0})) → M (World K) (Unit {0})
  unfolding stop
  destroy_server run w = noexcept (stop run w)

  -- TcpClient::TcpClient
  unfoldable pub construct_client : ℕ → M (World K) (Unit {0})
  unfolding Client.put_client
  construct_client loop = Client.put_client (record {
    loop = loop;
    connector = none;
    connection = none;
    read_handler = none;
    write_handler = none;
    close_handler = none;
  })

  -- TcpClient::~TcpClient
  unfoldable pub destroy_client : M (World K) (Unit {0})
  unfolding Client.disconnect
  destroy_client w = noexcept (Client.disconnect w)

  -- svr.onConnected(...).onMessage(...).onWrite(...).onClose(...)
  unfoldable pub install : M (World K) (Unit {0})
  unfolding server put_server on_connected on_message on_write on_close
  install = do
    s ← server
    put_server (
        on_close (user leaves)
          (on_write (user repeats) (on_message (user answers) (on_connected (user greets) s))))

  -- The body of the try. What the loop threads do while main waits for a key is an argument.
  unfoldable pub serve :
      (Handler → ℕ → M (World K) (Unit {0})) → M (World K) (Unit {0}) → M (World K) (Unit {0})
  unfolding start install stop
  serve run meanwhile = do start 9090; install; meanwhile; stop run

  -- main; `depth` bounds how deep the handlers call each other.
  unfoldable pub main :
      (indeterminate concurrency depth : ℕ) → M (World K) (Unit {0}) → M (World K) (Unit {0})
  unfolding construct_server serve destroy_server handlers call
  main indeterminate concurrency depth meanwhile = do
    λ w. noexcept (construct_server indeterminate concurrency w)
    λ w. caught (serve (call handlers depth) meanwhile w)
    destroy_server (call handlers depth)
