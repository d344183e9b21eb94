-- ===== src/ExampleServer/Main.antt =====
-- `main` of example/example-p11-kit-server/main.go.
use go_p11_kit.Base.{Bool, true, false, none, List, [], ◌∷◌, if◌then◌else◌, codes}
use go_p11_kit.Wire.Buffer.{Bytes}
use go_p11_kit.Wire.Body.Write.{Version}
use go_p11_kit.Token.Object.{Object}
use go_p11_kit.Server.Slot.{Slot}
use go_p11_kit.Server.State.{Conn}
use go_p11_kit.Server.Loop.{World, End, finalized, aborted, write_aborted, stuck, handle}
use go_p11_kit.ExampleServer.Outside.{
  Outside, Fatal, handling_stdio, creating_temp_dir, listening_on, Outcome, fatal, done, ◌>>=◌,
  or_fatal,
}
use go_p11_kit.ExampleServer.Files.{load_certificates, load_private_keys, load_public_keys}

-- The flags, and the arguments that follow them.
pub record Flags : Type 0 where
  pub cert_files : List Bytes
  pub priv_files : List Bytes
  pub pub_files : List Bytes
  pub stdio : Bool
  pub args : List Bytes

-- The objects of the three loops.
unfoldable pub load : Outside → Flags → Outcome (List Object)
unfolding load_certificates load_private_keys load_public_keys
load out flags = do
  (certs, objs) ← load_certificates out flags.cert_files [] []
  objs ← load_private_keys out certs flags.priv_files objs
  load_public_keys out certs flags.pub_files objs

abbrev version : Version
version = record { major = 0; minor = 1 }

abbrev pub slot : List Object → Slot
slot objs = record {
  id = 1;
  description = codes "example-slot";
  label = codes "example";
  manufacturer = codes "go-p11-kit";
  model = codes "example-server";
  serial = codes "12345678";
  hardware_version = version;
  firmware_version = version;
  objects = objs;
  has_get_objects = false;
  mechanisms = none;
  has_mechanism_info = false;
  initialized = true;
}

-- A new connection to the handler, before anything is read from it.
abbrev pub connection : List Object → Conn
connection objs = record {
  manufacturer = codes "go-p11-kit";
  library = codes "example-server";
  library_version = version;
  slots = slot objs ∷ [];
  last_session_id = 0;
  sessions = [];
}

-- How `main` ends, or what it goes on to do: to serve each connection to a socket as `connection`.
pub data Running : Type 0 where
  exited_with_usage : Running
  failed_with : Fatal → Running
  served_stdio : Bytes → Running
  listening : Bytes → List Object → Running

abbrev pub served_until : End → Bytes → Running
served_until finalized output = served_stdio output
served_until (aborted f) output = failed_with handling_stdio
served_until write_aborted output = failed_with handling_stdio
served_until stuck output = failed_with handling_stdio

-- The path of the socket: a file of a new directory, if none is given.
unfoldable pub socket_path : Outside → Bytes → Outcome Bytes
socket_path out [] = do
  dir ← or_fatal out.mkdir_temp creating_temp_dir
  done (out.join dir (codes "p11kit.sock"))
socket_path out (c ∷ path) = done (c ∷ path)

abbrev pub listen : Outside → List Object → Outcome Bytes → Running
listen out objs (fatal f) = failed_with f
listen out objs (done path) =
    if out.listen path then listening path objs else failed_with (listening_on path)

-- What follows the loops. `w` is what happens around the connection over stdio, and `stdin` is what
-- can be read from it.
abbrev pub start : Outside → World → Bytes → Bool → Bytes → Outcome (List Object) → Running
start out w stdin stdio path (fatal f) = failed_with f
start out w stdin true path (done objs) =
    let s = handle w (connection objs) stdin in served_until s.end s.output
start out w stdin false path (done objs) = listen out objs (socket_path out path)

unfoldable pub run_with : Outside → World → Bytes → Flags → List Bytes → Running
unfolding load handle socket_path
run_with out w stdin flags [] = start out w stdin flags.stdio [] (load out flags)
run_with out w stdin flags (path ∷ []) = start out w stdin flags.stdio path (load out flags)
run_with out w stdin flags (path ∷ more ∷ rest) = exited_with_usage

unfoldable pub main : Outside → World → Bytes → Flags → Running
unfolding run_with
main out w stdin flags = run_with out w stdin flags flags.args
