-- ===== src/Panel.antt =====
-- panel/api: the HTTP handlers of the panel. A handler takes what it needs of the request, the errors
-- of the outside, and the state that the handlers share; it gives a response and the new state.
pub mod Http
pub mod Names
pub mod Server
pub mod Hosts
pub mod Login
pub mod Subdomain
pub mod Isolation
pub mod Apart
pub mod Users
pub mod Instances
pub mod Create
pub mod Provision
pub mod Upgrade
pub mod Guard
pub mod Starts
pub mod Ends
pub mod Steps
pub mod Refusals
pub mod Auth
