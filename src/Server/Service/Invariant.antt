-- ===== src/Server/Service/Invariant.antt =====
-- FileManager through the requests that FcopyService::process of src/server/service.cpp answers.
use fcopy.Server.FileManager.{FileManager}
