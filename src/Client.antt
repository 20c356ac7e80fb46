-- ===== src/Client.antt =====
-- internal/ocppclient/client.go, operations.go and types.go: the station of the one-shot commands.
-- What the central system answers to each request is a field of `Central`: `answered` is a
-- confirmation that came in time, `failed` an error of the OCPP library, and `expired` a context
-- that ended first.
pub mod Types
pub mod Operations
pub mod Setup
pub mod Laws
