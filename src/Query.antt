-- ===== src/Query.antt =====
-- `HttpHandle::getQueryParams` and `getQueryParam` of hikyuu/httpd/HttpHandle.cpp: the parameters of
-- a request target. `url_unescape` is code of another library, and a parameter here.
pub mod Defs
pub mod Segments
pub mod RoundTrip
pub mod Overread
pub mod Bounds
pub mod Examples
