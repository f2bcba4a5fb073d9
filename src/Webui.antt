-- ===== src/Webui.antt =====
-- src/webui/: the web pages' server side.
pub mod Events
