-- ===== src/Server/Samples.antt =====
-- A site for the tests of the server.
use mkrepo.Base.{◌<>◌, String, true, none, some, [], Result, ok}
use mkrepo.Service.Template.{MkrepoFile}
use mkrepo.Handler.{Request, http_error}
use mkrepo.Handler.Samples.{env, request, later, login_inputs, callback_inputs}
use mkrepo.Server.{Site, RequestInputs}

abbrev pub decode : String → Result String (MkrepoFile Unit)
decode text = ok (record { description = none; lang = none; schema = none })

abbrev pub site : Site Unit Unit
site = record {
  env = env;
  world = record { succeeds = λ h e. true; temp_name = λ h. "/tmp/mkrepo-1" };
  service = record {
    licenses = [];
    gitignores = record { read_dir = ok []; open_file = λ name. none };
    templates = record {
      built_in = λ path. none;
      cloned = λ dir. [];
      parses = λ path. true;
      join = λ dir path. dir <> "/" <> path;
    };
  };
  decode = decode;
  disk = λ h path. none;
  licenses_json = some "{}";
  file_server = λ r. http_error "404 page not found" 404;
}

abbrev pub inputs : RequestInputs
inputs = record { auth = later; login = login_inputs; callback = callback_inputs }

abbrev pub post : Request
post = record request { method = "POST"; path = "/new"; uri = "/new" }

abbrev pub get_logout : Request
get_logout = record request { path = "/auth/logout"; uri = "/auth/logout" }
