-- ===== src/Handlers/Text.antt =====
-- The handlers with a fixed text: src/error_handler.cc, src/health_handler.cc.
use cs130capstoneproject.Base.Bytes.{codes}
use cs130capstoneproject.RequestParser.Request.{Request}
use cs130capstoneproject.Http.Status
use cs130capstoneproject.Http.Response.{Response}
use cs130capstoneproject.Http.Utils.{plain_text_response}
use cs130capstoneproject.Handlers.Log.{Log, add_record}

-- `ErrorHandler::handleRequest`
unfoldable pub handle_error : Request → Log → Response × Log
handle_error req log = (
  plain_text_response (codes "No Content Found! Check request format!") Status.not_found,
  add_record req.uri (codes "ErrorHandler") Status.not_found log,
)

-- `HealthHandler::handleRequest`
unfoldable pub handle_health : Request → Log → Response × Log
handle_health req log = (
  plain_text_response (codes "OK") Status.ok,
  add_record req.uri (codes "HealthHandler") Status.ok log,
)
