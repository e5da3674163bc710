-- ===== src/Handler/Pages.antt =====
-- internal/handler/index.go, helpers.go, `Templates` of template.go, and `MkrepoForm` and `Schemas`
-- of repo.go. What a page shows is not modelled, and the execution of its template does not fail.
use mkrepo.Base.{String, Option, none, some, [], ◌==◌, if◌then◌else◌, Result, ok, err}
use mkrepo.Base.Dict.{lookup}
use mkrepo.Provider.{Client}
use mkrepo.Provider.Registry.{Provider, new_client}
use mkrepo.Service.Work.{Failure, panic}
use mkrepo.Handler.{Account, Request, Response, Env, http_error}
use mkrepo.Handler.Login.{rendered}

-- `internalServerError`
abbrev pub internal_server_error : Response
internal_server_error = http_error "Internal Server Error" 500

-- The encoder buffers the whole value, so an error comes before anything is written.
abbrev pub encode : Option String → Response
encode none = internal_server_error
encode (some json) = record { status = 200; location = ""; cookies = []; body = json }

unfoldable pub index : Request → Response
index r = if r.path == "/" then rendered "index.html" else http_error "404 page not found" 404

-- `licenses` is what the encoder makes of the licenses.
unfoldable pub schemas : Option String → Request → Response
schemas licenses r = encode licenses

-- The search is commented out, so the slice is nil.
unfoldable pub templates : Request → Response
templates r = encode (some "null\n")

owners_page : Option String → Response
owners_page none = rendered "new.html"
owners_page (some text) = internal_server_error

form_of : Result String Client → Response
form_of (err text) = internal_server_error
form_of (ok client) = owners_page client.get_posible_repo_owners.error

-- A provider that is not in the map is a nil interface, and its method panics.
form_by : {Block : Type 0} → Env Block → Account → Option Provider → Result Failure Response
form_by env account none = err panic
form_by env account (some pr) = ok (form_of (new_client env.sdk pr account.token))

unfoldable pub mkrepo_form :
    {Block : Type 0} → Env Block → Account → Request → Result Failure Response
unfolding form_by form_of owners_page
mkrepo_form env account r = form_by env account (lookup account.provider_key env.providers)
