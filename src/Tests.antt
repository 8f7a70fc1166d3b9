-- ===== src/Tests.antt =====
-- Runs at concrete inputs, and the theorems applied to inputs that meet their hypotheses.
mod Data
mod Sexpr
mod Slim
mod Obfuscate
mod Server
mod Profiles
mod Connector
mod Keepalive
mod Resolver
mod Linux
mod Tunnels
mod Controller
mod Formats
mod Config
mod Files
mod Cmdline
mod Ipsec
mod Natt
