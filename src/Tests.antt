-- ===== src/Tests.antt =====
-- Runs of the models on concrete inputs, and the theorems at inputs that meet their hypotheses.
mod RequestParserRuns
mod Requests
mod Sessions
mod Configs
mod Ports
mod Responses
mod Proxies
mod Statics
mod Servers
mod Loops
mod Delivered
